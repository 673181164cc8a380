-- ===== src/Access/Accounts.antt =====
-- Users, session tokens and members of projects (internal/store/auth.go).
pub mod Login
use sightpane.Prelude.{
  ℕ, ◌+◌, ◌*◌, ◌==◌, Bool, true, false, ◌&&◌, ◌||◌, not, Option, none, some, List, [], ◌∷◌, ◌++◌,
  find, keep, update_where, if◌then◌else◌, ltb, leb,
}
use sightpane.Prelude.Text.{Text, codes, text_eq, is_empty, contains, trim_space}
use sightpane.Access.{
  AccessLib, User, AuthToken, Member, OrgMember, Project, AccessDb, not_found, email_taken,
  invalid_email, password_too_short, bad_credentials, bad_locale, refused, Result, done, failed,
  normal, owner, admin, member, viewer,
}
use sightpane.Access.Password.{hash_password, verify_password}

-- 30 days in nanoseconds.
abbrev pub token_ttl : ℕ
token_ttl = 2592000 * 1000000000

abbrev pub min_password : ℕ
min_password = 6

-- len(s): the bytes of a text in UTF-8.
utf8_length : Text → ℕ
utf8_length [] = 0
utf8_length (c ∷ s) =
    (if ltb c 0x80 then 1 else if ltb c 0x800 then 2 else if ltb c 0x10000 then 3 else 4)
    + utf8_length s

unfoldable pub has_email : Text → User → Bool
has_email email u = text_eq u.email email

unfoldable pub has_id : ℕ → User → Bool
has_id id u = u.id == id

unfoldable pub has_hash : Text → AuthToken → Bool
has_hash hash t = text_eq t.token_hash hash

unfoldable pub locale_supported : Text → Bool
locale_supported l = text_eq l (codes "tr") || text_eq l (codes "en")

unfoldable pub or_not_found : Option User → Result User
or_not_found none = failed not_found
or_not_found (some u) = done u

-- The INSERT, which UNIQUE(email) refuses where the email is taken.
unfoldable pub insert_user : Text → Text → Text → Option User → AccessDb → Result (User × AccessDb)
insert_user email name hash (some other) db = failed email_taken
insert_user email name hash none db =
    let u : User = record {
      id = db.next_user;
      email = email;
      name = name;
      locale = [];
      password_hash = hash;
    } in
    done (u, record db { users = db.users ++ u ∷ []; next_user = db.next_user + 1 })

unfoldable pub insert_hashed : Text → Text → Option Text → AccessDb → Result (User × AccessDb)
unfolding insert_user has_email
insert_hashed email name none db = failed refused
insert_hashed email name (some hash) db =
    insert_user email name hash (find (has_email email) db.users) db

-- token_hash is the primary key, and the user has to exist.
unfoldable pub insert_token :
    AuthToken → Option User → Option AuthToken → AccessDb → Result AccessDb
insert_token t none other db = failed refused
insert_token t (some u) (some other) db = failed refused
insert_token t (some u) none db = done (record db { auth_tokens = db.auth_tokens ++ t ∷ [] })

unfoldable pub with_token : Text → User → Result AccessDb → Result (Text × User × AccessDb)
with_token plain u (done db) = done (plain, u, db)
with_token plain u (failed e) = failed e

module _ (lib : AccessLib) where
  -- The salt is the random bytes that the hash draws.
  unfoldable pub create_user : Text → Text → Text → List ℕ → AccessDb → Result (User × AccessDb)
  unfolding utf8_length insert_hashed normal
  create_user email name password salt db =
      let email' = normal lib email in
      if not (contains email' (codes "@"))
      then failed invalid_email
      else if ltb (utf8_length password) min_password
      then failed password_too_short
      else insert_hashed email' (trim_space name) (hash_password lib password salt) db

  -- With the hash of the password in the row.
  unfoldable pub user_by_email : Text → AccessDb → Result User
  unfolding or_not_found normal has_email
  user_by_email email db = or_not_found (find (has_email (normal lib email)) db.users)

  unfoldable pub user_by_id : ℕ → AccessDb → Result User
  unfolding or_not_found has_id
  user_by_id id db = or_not_found (find (has_id id) db.users)

  -- `plain` is the token that newToken draws.
  unfoldable pub issue_token : ℕ → Text → ℕ → AccessDb → Result AccessDb
  unfolding insert_token has_id has_hash
  issue_token user plain now db =
      let hash = lib.sha256_hex plain in
      insert_token (record { token_hash = hash; user_id = user; expires_at = now + token_ttl })
        (find (has_id user) db.users) (find (has_hash hash) db.auth_tokens) db

  unfoldable pub login_found :
      Result User → Text → Text → ℕ → AccessDb → Result (Text × User × AccessDb)
  unfolding with_token
  login_found (failed e) password plain now db = failed bad_credentials
  login_found (done u) password plain now db =
      if verify_password lib u.password_hash password
      then with_token plain u (issue_token u.id plain now db)
      else failed bad_credentials

  unfoldable pub login : Text → Text → Text → ℕ → AccessDb → Result (Text × User × AccessDb)
  unfolding login_found
  login email password plain now db = login_found (user_by_email email db) password plain now db

  unfoldable pub user_of_token : Option AuthToken → ℕ → AccessDb → Result User
  user_of_token none now db = failed not_found
  user_of_token (some t) now db =
      if ltb t.expires_at now then failed not_found else user_by_id t.user_id db

  unfoldable pub user_by_token : Text → ℕ → AccessDb → Result User
  unfolding user_of_token has_hash
  user_by_token token now db =
      user_of_token (find (has_hash (lib.sha256_hex token)) db.auth_tokens) now db

  unfoldable pub revoke_token : Text → AccessDb → AccessDb
  unfolding has_hash
  revoke_token token db = record db {
    auth_tokens = keep (λ t. not (has_hash (lib.sha256_hex token) t)) db.auth_tokens;
  }

  unfoldable pub set_locale : ℕ → Text → AccessDb → Result AccessDb
  unfolding locale_supported normal has_id
  set_locale user locale db =
      let l = normal lib locale in
      if not (is_empty l) && not (locale_supported l)
      then failed bad_locale
      else done
          (record db { users = update_where (has_id user) (λ u. record u { locale = l }) db.users })

unfoldable pub is_member : ℕ → ℕ → Member → Bool
is_member project user m = m.project_id == project && m.user_id == user

-- ON CONFLICT (project_id, user_id) DO UPDATE
upsert_member : Option Member → Member → List Member → List Member
unfolding is_member
upsert_member none m ms = ms ++ m ∷ []
upsert_member (some old) m ms =
    update_where (is_member m.project_id m.user_id) (λ r. record r { role = m.role }) ms

-- The project and the user exist.
unfoldable pub add_member : ℕ → ℕ → Text → AccessDb → AccessDb
unfolding upsert_member
add_member project user role db = record db {
  project_members =
      upsert_member (find (is_member project user) db.project_members)
        (record { project_id = project; user_id = user; role = role }) db.project_members;
}

unfoldable pub remove_member : ℕ → ℕ → AccessDb → AccessDb
unfolding is_member
remove_member project user db = record db {
  project_members = keep (λ m. not (is_member project user m)) db.project_members;
}

unfoldable pub rank_role : Text → ℕ
rank_role r =
    if text_eq r owner
    then 4
    else if text_eq r admin
    then 3
    else if text_eq r member
    then 2
    else if text_eq r viewer
    then 1
    else 0

unfoldable pub is_project : ℕ → Project → Bool
is_project id p = p.id == id

unfoldable pub is_org_member : ℕ → ℕ → OrgMember → Bool
is_org_member org user m = m.org_id == org && m.user_id == user

unfoldable pub role_of_org_member : Option OrgMember → Text
role_of_org_member none = []
role_of_org_member (some m) = m.role

unfoldable pub role_of_member : Option Member → Text
role_of_member none = []
role_of_member (some m) = m.role

-- The role that the organisation of a project gives.
unfoldable pub role_in_org_of : Option Project → ℕ → AccessDb → Text
unfolding role_of_org_member is_org_member
role_in_org_of none user db = []
role_in_org_of (some p) user db = elim p.org_id [
  | none ↦ []
  | some org ↦ role_of_org_member (find (is_org_member org user) db.org_members)
]

unfoldable pub member_role : ℕ → ℕ → AccessDb → Text
unfolding role_in_org_of is_project role_of_member is_member rank_role
member_role project user db =
    let org_role = role_in_org_of (find (is_project project) db.projects) user db in
    let proj_role = role_of_member (find (is_member project user) db.project_members) in
    if leb (rank_role proj_role) (rank_role org_role) then org_role else proj_role
