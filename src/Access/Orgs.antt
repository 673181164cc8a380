-- ===== src/Access/Orgs.antt =====
-- Organisations, their members and their API tokens (internal/store/org.go).
use sightpane.Prelude.{
  ℕ, zero, suc, ◌+◌, ◌==◌, Bool, ◌&&◌, ◌||◌, not, Option, none, some, List, [], ◌∷◌, ◌++◌, find,
  keep, update_where, map, if◌then◌else◌,
}
use sightpane.Prelude.Text.{Text, codes, text_eq, is_empty, trim_space}
use sightpane.Access.{
  AccessLib, User, Org, OrgMember, Project, ApiToken, AccessDb, not_found, org_name_required,
  invalid_role, refused, Result, done, failed, normal, owner, admin, member, viewer,
}
use sightpane.Access.Accounts.{has_id, is_org_member, role_of_org_member}

unfoldable pub is_org : ℕ → Org → Bool
is_org id o = o.id == id

unfoldable pub is_role : Text → Bool
is_role r = text_eq r owner || text_eq r admin || text_eq r member || text_eq r viewer

-- The second INSERT of CreateOrg. The user has to exist; the first INSERT stands if it does not.
unfoldable pub first_owner : Org → ℕ → Option User → AccessDb → Result Org × AccessDb
first_owner o user none db = (failed refused, db)
first_owner o user (some u) db = (
  done o,
  record db {
    org_members = db.org_members ++ record { org_id = o.id; user_id = user; role = owner } ∷ [];
  },
)

-- The reply and the tables: the two statements are not one transaction.
unfoldable pub create_org : Text → ℕ → AccessDb → Result Org × AccessDb
unfolding first_owner has_id
create_org name user db =
    let name' = trim_space name in
    let o : Org = record { id = db.next_org; name = name' } in
    let db' = record db { orgs = db.orgs ++ o ∷ []; next_org = db.next_org + 1 } in
    if is_empty name'
    then (failed org_name_required, db)
    else if user == 0
    then (done o, db')
    else first_owner o user (find (has_id user) db.users) db'

rename_found : Text → Option Org → ℕ → AccessDb → Result AccessDb
rename_found name none id db = failed not_found
rename_found name (some o) id db =
    done (record db { orgs = update_where (is_org id) (λ r. record r { name = name }) db.orgs })

unfoldable pub update_org : ℕ → Text → AccessDb → Result AccessDb
unfolding rename_found is_org
update_org id name db =
    let name' = trim_space name in
    if is_empty name'
    then failed org_name_required
    else rename_found name' (find (is_org id) db.orgs) id db

-- The org of a project once an organisation is gone: ON DELETE SET NULL.
without_org : ℕ → Option ℕ → Option ℕ
without_org id none = none
without_org id (some org) = if org == id then none else some org

delete_org_found : Option Org → ℕ → AccessDb → Result AccessDb
unfolding without_org is_org
delete_org_found none id db = failed not_found
delete_org_found (some o) id db = done (record db {
  orgs = keep (λ r. not (is_org id r)) db.orgs;
  org_members = keep (λ m. not (m.org_id == id)) db.org_members;
  projects = map {A = Project} (λ p. record p { org_id = without_org id p.org_id }) db.projects;
  api_tokens = keep (λ t. not (t.org_id == id)) db.api_tokens;
})

unfoldable pub delete_org : ℕ → AccessDb → Result AccessDb
unfolding delete_org_found
delete_org id db = delete_org_found (find (is_org id) db.orgs) id db

-- INSERT … ON CONFLICT (org_id, user_id) DO UPDATE SET role.
unfoldable pub upsert_org_member : Option OrgMember → OrgMember → List OrgMember → List OrgMember
unfolding is_org_member
upsert_org_member none m ms = ms ++ m ∷ []
upsert_org_member (some old) m ms =
    update_where (is_org_member m.org_id m.user_id) (λ r. record r { role = m.role }) ms

unfoldable pub put_org_member : Option Org → Option User → OrgMember → AccessDb → Result AccessDb
unfolding upsert_org_member
put_org_member (some o) (some u) m db = done (record db {
  org_members =
      upsert_org_member (find (is_org_member m.org_id m.user_id) db.org_members) m db.org_members;
})
put_org_member (some o) none m db = failed refused
put_org_member none user m db = failed refused

unfoldable pub set_role : Option OrgMember → ℕ → ℕ → Text → AccessDb → Result AccessDb
set_role none org user role db = failed not_found
set_role (some old) org user role db = done (record db {
  org_members =
      update_where (is_org_member org user) (λ r. record r { role = role }) db.org_members;
})

unfoldable pub remove_found : Option OrgMember → ℕ → ℕ → AccessDb → Result AccessDb
remove_found none org user db = failed not_found
remove_found (some old) org user db =
    done (record db { org_members = keep (λ m. not (is_org_member org user m)) db.org_members })

unfoldable pub remove_org_member : ℕ → ℕ → AccessDb → Result AccessDb
unfolding remove_found is_org_member
remove_org_member org user db =
    remove_found (find (is_org_member org user) db.org_members) org user db

unfoldable pub org_member_role : ℕ → ℕ → AccessDb → Text
unfolding is_org_member role_of_org_member
org_member_role org user db = role_of_org_member (find (is_org_member org user) db.org_members)

-- secret[:n]
take : ℕ → Text → Text
take zero s = []
take (suc n) [] = []
take (suc n) (c ∷ s) = c ∷ take n s

module _ (lib : AccessLib) where
  -- A role that is not one of the four becomes "member".
  unfoldable pub add_org_member : ℕ → ℕ → Text → AccessDb → Result AccessDb
  unfolding put_org_member is_role normal has_id is_org
  add_org_member org user role db =
      let r = normal lib role in
      put_org_member (find (is_org org) db.orgs) (find (has_id user) db.users)
        (record { org_id = org; user_id = user; role = if is_role r then r else member }) db

  unfoldable pub update_org_member_role : ℕ → ℕ → Text → AccessDb → Result AccessDb
  unfolding set_role is_role normal is_org_member
  update_org_member_role org user role db =
      let r = normal lib role in
      if not (is_role r)
      then failed invalid_role
      else set_role (find (is_org_member org user) db.org_members) org user r db

  unfoldable pub has_token_hash : Text → ApiToken → Bool
  has_token_hash hash t = text_eq t.token_hash hash

  insert_api_token :
      ApiToken → Option Org → Option ApiToken → AccessDb → Result (ApiToken × AccessDb)
  insert_api_token t none other db = failed refused
  insert_api_token t (some o) (some other) db = failed refused
  insert_api_token t (some o) none db =
      done (t, record db { api_tokens = db.api_tokens ++ t ∷ []; next_token = db.next_token + 1 })

  -- `hex` is the 48 hexadecimal digits of the 24 random bytes; the first four follow "sp_". The
  -- project and the creator are taken to exist; UNIQUE(token_hash) refuses a hash that is there.
  unfoldable pub create_api_token :
      ℕ
      → Option ℕ
      → Option ℕ
      → Text
      → List Text
      → Option ℕ
      → Text
      → AccessDb
      → Result (ApiToken × AccessDb)
  unfolding insert_api_token take has_token_hash
  create_api_token org project user name scopes expires_at hex db =
      let secret = codes "sp_" ++ hex in
      let name' = trim_space name in
      insert_api_token
        (record {
          id = db.next_token;
          org_id = org;
          project_id = project;
          name = if is_empty name' then codes "API Token" else name';
          token_hash = lib.sha256_hex secret;
          token_prefix = take 7 secret ++ codes "...";
          scopes = elim scopes [ [] ↦ codes "read" ∷ [] | s ∷ rest ↦ s ∷ rest ];
          expires_at = expires_at;
          created_by = user;
        })
        (find (is_org org) db.orgs) (find (has_token_hash (lib.sha256_hex secret)) db.api_tokens) db

  is_token : ℕ → ℕ → ApiToken → Bool
  is_token org id t = t.org_id == org && t.id == id

  delete_token_found : Option ApiToken → ℕ → ℕ → AccessDb → Result AccessDb
  unfolding is_token
  delete_token_found none org id db = failed not_found
  delete_token_found (some t) org id db =
      done (record db { api_tokens = keep (λ r. not (is_token org id r)) db.api_tokens })

  unfoldable pub delete_api_token : ℕ → ℕ → AccessDb → Result AccessDb
  unfolding delete_token_found
  delete_api_token org id db = delete_token_found (find (is_token org id) db.api_tokens) org id db

  unfoldable pub api_token_by_secret : Text → AccessDb → Option ApiToken
  unfolding has_token_hash
  api_token_by_secret secret db = find (has_token_hash (lib.sha256_hex secret)) db.api_tokens
