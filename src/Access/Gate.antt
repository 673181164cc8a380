-- ===== src/Access/Gate.antt =====
-- Who may call a route (internal/server/middleware.go): authenticate, allow, requireProject and
-- requireOrg up to the call of the handler.
pub mod Removed
pub mod Admitted
pub mod Scopes
use sightpane.Prelude.{
  ℕ, ◌==◌, Bool, true, false, ◌&&◌, ◌||◌, not, Option, none, some, List, [], ◌∷◌, ◌++◌, find,
  if◌then◌else◌, ltb,
}
use sightpane.Prelude.Text.{Text, codes, text_eq, is_empty, contains, has_prefix}
use sightpane.Access.{
  AccessLib, User, Project, ApiToken, AccessDb, Result, done, failed, owner, admin, member, viewer,
}
use sightpane.Access.Accounts.{user_by_id, user_by_token, member_role, is_project}
use sightpane.Access.Orgs.{api_token_by_secret, org_member_role}

pub data Refusal : Type 0 where
  login_required invalid_token project_not_found org_not_found forbidden : Refusal
  project_owner_needed owner_role_required admin_role_required member_role_required : Refusal

pub data Checked (A : Type 0) : Type 0 where
  passed : A → Checked A
  refused : Refusal → Checked A

-- The locals of a request: the id of the user, 0 for a token without a user, and the token.
pub record Caller : Type 0 where
  pub user_id : ℕ
  pub token : Option ApiToken

unfoldable pub has_scope : List Text → Text → Bool
has_scope [] target = false
has_scope (s ∷ scopes) target = text_eq s target || text_eq s (codes "*") || has_scope scopes target

unfoldable pub is_read : Text → Bool
is_read method =
    text_eq method (codes "GET")
    || text_eq method (codes "HEAD")
    || text_eq method (codes "OPTIONS")

pub is_past : Option ℕ → ℕ → Bool
is_past none now = false
is_past (some t) now = ltb t now

id_of_user : Result User → ℕ
id_of_user (done u) = u.id
id_of_user (failed e) = 0

module _ (lib : AccessLib) where
  creator : Option ℕ → AccessDb → ℕ
  unfolding id_of_user
  creator none db = 0
  creator (some id) db = id_of_user (user_by_id lib id db)

  by_api_token : Option ApiToken → ℕ → AccessDb → Checked Caller
  unfolding creator is_past
  by_api_token none now db = refused invalid_token
  by_api_token (some t) now db =
      if is_past t.expires_at now
      then refused invalid_token
      else passed (record { user_id = creator t.created_by db; token = some t })

  by_session : Result User → Checked Caller
  by_session (done u) = passed (record { user_id = u.id; token = none })
  by_session (failed e) = refused invalid_token

  unfoldable pub authenticate : Text → ℕ → AccessDb → Checked Caller
  unfolding by_api_token by_session
  authenticate tok now db =
      if is_empty tok
      then refused login_required
      else if has_prefix tok (codes "sp_") || has_prefix tok (codes "hog_")
      then by_api_token (api_token_by_secret lib tok db) now db
      else by_session (user_by_token lib tok now db)

-- The scopes that a token needs for a path and a method.
in_scope : List Text → Text → Text → Bool
in_scope scopes path method =
    if contains path (codes "/sourcemaps")
    then has_scope scopes (codes "sourcemaps:write")
      || has_scope scopes admin
      || has_scope scopes (codes "*")
    else if is_read method
    then has_scope scopes (codes "read") || has_scope scopes admin || has_scope scopes (codes "*")
    else has_scope scopes admin || has_scope scopes (codes "*")

of_org : Option ℕ → ℕ → Bool
of_org none org = false
of_org (some o) org = o == org

of_project : Option ℕ → ℕ → Bool
of_project none project = true
of_project (some p) project = p == project

allow_token : ApiToken → Option Project → ℕ → Text → Text → Option Refusal
unfolding in_scope of_org of_project
allow_token t none project path method = some project_not_found
allow_token t (some p) project path method =
    if not (of_org p.org_id t.org_id)
    then some project_not_found
    else if not (of_project t.project_id project)
    then some project_not_found
    else if in_scope t.scopes path method
    then none
    else some forbidden

allow_role : Text → Text → Text → Option Refusal
allow_role role need method =
    if is_empty role
    then some project_not_found
    else if text_eq role viewer && not (is_read method)
    then some forbidden
    else if text_eq need owner && not (text_eq role owner) && not (text_eq role admin)
    then some project_owner_needed
    else none

allow_caller : Option ApiToken → ℕ → ℕ → Text → Text → Text → AccessDb → Option Refusal
unfolding allow_token allow_role is_project
allow_caller (some t) user project need path method db =
    allow_token t (find (is_project project) db.projects) project path method
allow_caller none user project need path method db =
    allow_role (member_role project user db) need method

-- none where the request is let through.
unfoldable pub allow : Caller → ℕ → Text → Text → Text → AccessDb → Option Refusal
unfolding allow_caller
allow c project need path method db = allow_caller c.token c.user_id project need path method db

org_gate : Text → Text → Text → Option Refusal
org_gate role need method =
    if is_empty role
    then some org_not_found
    else if text_eq role viewer && not (is_read method)
    then some forbidden
    else if text_eq need owner
    then if text_eq role owner then none else some owner_role_required
    else if text_eq need admin
    then if text_eq role owner || text_eq role admin then none else some admin_role_required
    else if text_eq need member
    then if text_eq role owner || text_eq role admin || text_eq role member
      then none
      else some member_role_required
    else none

-- What a check says of a caller that is known.
unfoldable pub when_passed : Checked Caller → (Caller → Option Refusal) → Option Refusal
when_passed (refused e) check = some e
when_passed (passed c) check = check c

module _ (lib : AccessLib) where
  unfoldable pub require_project : Text → Text → ℕ → ℕ → Text → Text → AccessDb → Option Refusal
  unfolding when_passed
  require_project need tok now project path method db =
      when_passed (authenticate lib tok now db) λ c. allow c project need path method db

  unfoldable pub require_org : Text → Text → ℕ → ℕ → Text → AccessDb → Option Refusal
  unfolding when_passed org_gate
  require_org need tok now org method db = when_passed (authenticate lib tok now db) λ c.
      if c.user_id == 0
      then some login_required
      else org_gate (org_member_role org c.user_id db) need method
