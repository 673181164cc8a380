-- ===== src/Access/Gate/Admitted.antt =====
-- Whom requireProject lets through.
use sightpane.Prelude.{
  ℕ, ◌≡◌, ◌⊎◌, refl, ap, true, false, ◌||◌, Option, none, some, List, [], ◌∷◌, find, Bool-cases,
  inl, inr, arith, ==_iff,
}
use sightpane.Prelude.Text.{Text, codes, text_eq, text_eq_iff, has_prefix, is_empty, contains}
use sightpane.Access.{
  AccessLib, User, Project, ApiToken, AccessDb, Result, done, failed, owner, admin, viewer,
}
use sightpane.Access.Accounts.{user_by_token, member_role, is_project}
use sightpane.Access.Orgs.{api_token_by_secret}
use sightpane.Access.Gate.{
  has_scope, is_read, is_past, authenticate, by_api_token, by_session, require_project, when_passed,
  allow, allow_caller, allow_token, allow_role, in_scope, of_org, of_project,
}

-- Some scope of the first list stands in the second.
abbrev pub HasOneOf : List Text → List Text → Type 0
HasOneOf scopes [] = ⊥
HasOneOf scopes (w ∷ ws) = (has_scope scopes w ≡ true) ⊎ HasOneOf scopes ws

-- An API token of the organisation of the project, not expired, not bound to another project, with a
-- scope for the request: "admin", "*", or "sourcemaps:write" for a path of source maps and "read" for
-- another request that reads.
pub record TokenAdmits (lib : AccessLib) (tok path method : Text) (now project : ℕ) (db : AccessDb)
    : Type 0 where
  pub token : ApiToken
  pub issued : api_token_by_secret lib tok db ≡ some token
  pub in_time : is_past token.expires_at now ≡ false
  pub row : Project
  pub found : find (is_project project) db.projects ≡ some row
  pub same_org : row.org_id ≡ some token.org_id
  pub free : (token.project_id ≡ none) ⊎ (token.project_id ≡ some project)
  pub maps_scope :
      contains path (codes "/sourcemaps") ≡ true
      → HasOneOf token.scopes (codes "sourcemaps:write" ∷ admin ∷ codes "*" ∷ [])
  pub read_scope :
      contains path (codes "/sourcemaps") ≡ false
      → is_read method ≡ true
      → HasOneOf token.scopes (codes "read" ∷ admin ∷ codes "*" ∷ [])
  pub write_scope :
      contains path (codes "/sourcemaps") ≡ false
      → is_read method ≡ false
      → HasOneOf token.scopes (admin ∷ codes "*" ∷ [])

-- A session of a user who has a role on the project: to write, one that is not "viewer", and for a
-- route that needs an owner, "owner" or "admin".
pub record SessionAdmits (lib : AccessLib) (need tok method : Text) (now project : ℕ)
    (db : AccessDb) : Type 0 where
  pub user : User
  pub known : user_by_token lib tok now db ≡ done user
  pub a_member : is_empty (member_role project user.id db) ≡ false
  pub writes : is_read method ≡ false → text_eq (member_role project user.id db) viewer ≡ false
  pub owns :
      need ≡ owner
      → (text_eq (member_role project user.id db) owner
          || text_eq (member_role project user.id db) admin)
        ≡ true

module _ (lib : AccessLib) (need tok path method : Text) (now project : ℕ) (db : AccessDb) where
  of_org-some : (o : Option ℕ) (org : ℕ) → of_org o org ≡ true → o ≡ some org
  unfolding of_org
  of_org-some none org h = cc
  of_org-some (some k) org h = ap some ((==_iff k org).0 h)

  of_project-some : (o : Option ℕ) → of_project o project ≡ true → (o ≡ none) ⊎ (o ≡ some project)
  unfolding of_project
  of_project-some none h = inl refl
  of_project-some (some k) h = inr (ap some ((==_iff k project).0 h))

  of_two :
      (scopes : List Text) (v w : Text)
      → (has_scope scopes v || has_scope scopes w) ≡ true
      → HasOneOf scopes (v ∷ w ∷ [])
  of_two scopes v w h = elim (Bool-cases (has_scope scopes v)) [
    | inl e ↦ inl e
    | inr e ↦ inr (inl (ground arith))
  ]

  of_three :
      (scopes : List Text) (u v w : Text)
      → (has_scope scopes u || has_scope scopes v || has_scope scopes w) ≡ true
      → HasOneOf scopes (u ∷ v ∷ w ∷ [])
  of_three scopes u v w h = elim (Bool-cases (has_scope scopes u)) [
    | inl e ↦ inl e
    | inr e ↦ inr (of_two scopes v w (rw e at h))
  ]

  -- The scopes are asked for by the path and the method.
  scoped :
      (t : ApiToken) (row : Project)
      → of_org row.org_id t.org_id ≡ true
      → of_project t.project_id project ≡ true
      → allow_token t (some row) project path method ≡ none
      → in_scope t.scopes path method ≡ true
  unfolding allow_token
  scoped t row own fits h = elim (Bool-cases (in_scope t.scopes path method)) [
    | inl e ↦ e
    | inr e ↦ absurd (ground arith)
  ]

  token_admits :
      (t : ApiToken) (o : Option Project)
      → api_token_by_secret lib tok db ≡ some t
      → is_past t.expires_at now ≡ false
      → find (is_project project) db.projects ≡ o
      → allow_token t o project path method ≡ none
      → TokenAdmits lib tok path method now project db
  unfolding allow_token in_scope
  token_admits t none i p f h = cc
  token_admits t (some row) i p f h = elim (Bool-cases (of_org row.org_id t.org_id)) [
    | inr other ↦ absurd (ground arith)
    | inl own ↦ elim (Bool-cases (of_project t.project_id project)) [
      | inr other ↦ absurd (ground arith)
      | inl fits ↦ record {
        token = t;
        issued = i;
        in_time = p;
        row = row;
        found = f;
        same_org = of_org-some row.org_id t.org_id own;
        free = of_project-some t.project_id fits;
        maps_scope = λ maps.
            of_three t.scopes (codes "sourcemaps:write") admin (codes "*")
              (rw maps at (scoped t row own fits h));
        read_scope = λ path_is reads.
            of_three t.scopes (codes "read") admin (codes "*")
              (rw (path_is, reads) at (scoped t row own fits h));
        write_scope = λ path_is writes.
            of_two t.scopes admin (codes "*") (rw (path_is, writes) at (scoped t row own fits h));
      }
    ]
  ]

  session_admits :
      (u : User)
      → user_by_token lib tok now db ≡ done u
      → allow_role (member_role project u.id db) need method ≡ none
      → SessionAdmits lib need tok method now project db
  unfolding allow_role
  session_admits u k h = record {
    user = u;
    known = k;
    a_member = ground arith;
    writes = λ r. ground arith;
    owns = λ n. ground (arith, text_eq_iff need owner);
  }

  -- What requireProject lets through is either a token or a session that admits.
  abbrev pub IsAdmitted : Type 0
  IsAdmitted =
      TokenAdmits lib tok path method now project db
      ⊎ SessionAdmits lib need tok method now project db

  by_token :
      (o : Option ApiToken)
      → api_token_by_secret lib tok db ≡ o
      → when_passed (by_api_token lib o now db) (λ c. allow c project need path method db) ≡ none
      → IsAdmitted
  unfolding by_api_token when_passed allow allow_caller
  by_token none e h = cc
  by_token (some t) e h = elim (Bool-cases (is_past t.expires_at now)) [
    | inl past ↦ absurd (ground arith)
    | inr live ↦
        inl (token_admits t (find (is_project project) db.projects) e live refl (rw live at h))
  ]

  by_user :
      (r : Result User)
      → user_by_token lib tok now db ≡ r
      → when_passed (by_session lib r) (λ c. allow c project need path method db) ≡ none
      → IsAdmitted
  unfolding by_session when_passed allow allow_caller
  by_user (done u) e h = inr (session_admits u e h)
  by_user (failed x) e h = cc

  -- A request that requireProject lets through comes with an API token of the project's organisation
  -- that has not expired, is not bound to another project and has a scope for the request
  -- ("sourcemaps:write" for a path of source maps, "read" for another request that reads, "admin" or
  -- "*" for any), or with a session of a user who has a role on the project, which is not "viewer" if the request writes and
  -- is "owner" or "admin" if the route needs an owner.
  pub require_project-IsAdmitted :
      require_project lib need tok now project path method db ≡ none → IsAdmitted
  unfolding require_project authenticate
  require_project-IsAdmitted h = elim (Bool-cases (is_empty tok)) [
    | inl e ↦ absurd (unfold when_passed in ground arith)
    | inr e ↦ elim (Bool-cases (has_prefix tok (codes "sp_") || has_prefix tok (codes "hog_"))) [
      | inl k ↦ by_token (api_token_by_secret lib tok db) refl (rw (e, k) at h)
      | inr k ↦ by_user (user_by_token lib tok now db) refl (rw (e, k) at h)
    ]
  ]
