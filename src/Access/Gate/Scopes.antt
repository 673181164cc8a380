-- ===== src/Access/Gate/Scopes.antt =====
-- What requireOrg looks at in an API token.
use sightpane.Prelude.{
  ℕ, ◌==◌, ◌≡◌, refl, ◌||◌, Option, none, some, List, [], ◌∷◌, map, find, Bool-cases, inl, inr,
  if◌then◌else◌,
}
use mathlib.Core.Option
use sightpane.Prelude.Text.{Text, codes, text_eq, has_prefix, is_empty}
use sightpane.Access.{AccessLib, AuthToken, ApiToken, AccessDb}
use sightpane.Access.Accounts.{user_by_token, user_of_token, user_by_id, has_hash}
use sightpane.Access.Orgs.{org_member_role, api_token_by_secret, has_token_hash}
use sightpane.Access.Gate.{
  Refusal, Caller, login_required, creator, is_past, authenticate, by_api_token, require_org,
  when_passed, org_gate,
}

module _ (lib : AccessLib) (scopes : List Text) (o : ℕ) (p : Option ℕ) where
  -- A token with other scopes, another organisation and another project.
  abbrev rescoped : ApiToken → ApiToken
  rescoped t = record t { scopes = scopes; org_id = o; project_id = p }

  abbrev pub rescope : AccessDb → AccessDb
  rescope db = record db { api_tokens = map rescoped db.api_tokens }

  find-rescoped :
      (hash : Text) (ts : List ApiToken)
      → find (has_token_hash lib hash) (map rescoped ts)
        ≡ Option.map rescoped (find (has_token_hash lib hash) ts)
  unfolding find has_token_hash
  find-rescoped hash [] = refl
  find-rescoped hash (t ∷ ts) = elim (Bool-cases (text_eq t.token_hash hash)) [
    | inl e ↦ rw e refl
    | inr e ↦ rw e (find-rescoped hash ts)
  ]

  module _ (need tok method : Text) (now org : ℕ) (db : AccessDb) where
    -- The check of requireOrg once the caller is known.
    abbrev check : Caller → Option Refusal
    check c =
        if c.user_id == 0
        then some login_required
        else org_gate (org_member_role org c.user_id db) need method

    same_creator : (id : Option ℕ) → creator lib id (rescope db) ≡ creator lib id db
    unfolding creator user_by_id
    same_creator none = refl
    same_creator (some id) = refl

    by_rescoped :
        (t : Option ApiToken)
        → when_passed (by_api_token lib (Option.map rescoped t) now (rescope db)) check
          ≡ when_passed (by_api_token lib t now db) check
    unfolding by_api_token when_passed
    by_rescoped none = refl
    by_rescoped (some t) = elim (Bool-cases (is_past t.expires_at now)) [
      | inl e ↦ rw e refl
      | inr e ↦ rw (e, same_creator t.created_by) refl
    ]

    same_user :
        (t : Option AuthToken) → user_of_token lib t now (rescope db) ≡ user_of_token lib t now db
    unfolding user_of_token user_by_id
    same_user none = refl
    same_user (some t) = refl

    same_session : user_by_token lib tok now (rescope db) ≡ user_by_token lib tok now db
    unfolding user_by_token
    same_session = same_user (find (has_hash (lib.sha256_hex tok)) db.auth_tokens)

    same_token :
        api_token_by_secret lib tok (rescope db)
        ≡ Option.map rescoped (api_token_by_secret lib tok db)
    unfolding api_token_by_secret
    same_token = find-rescoped (lib.sha256_hex tok) db.api_tokens

    -- The routes of an organisation do not look at the scopes, the organisation or the project of an
    -- API token: if these are changed on every token, requireOrg answers every request as before.
    pub require_org-rescope :
        require_org lib need tok now org method (rescope db)
        ≡ require_org lib need tok now org method db
    unfolding require_org authenticate org_member_role
    require_org-rescope = elim (Bool-cases (is_empty tok)) [
      | inl e ↦ rw e refl
      | inr e ↦ elim (Bool-cases (has_prefix tok (codes "sp_") || has_prefix tok (codes "hog_"))) [
        | inl k ↦ rw (e, k, same_token) (by_rescoped (api_token_by_secret lib tok db))
        | inr k ↦ rw (e, k, same_session) refl
      ]
    ]
