-- ===== src/Access.antt =====
-- Accounts, sessions, organisations and API tokens: the rows of internal/store/auth.go and
-- internal/store/org.go. The children are the passwords, the operations of the two files, and the
-- checks of internal/server/middleware.go. The time at which a row was created, which nothing reads,
-- is left out, and so is the audit log.
pub mod Password
pub mod Accounts
pub mod Orgs
pub mod Gate
mod Examples
use sightpane.Prelude.{
  ℕ, Bool, true, false, Option, none, some, List, [], ◌∷◌, ◌++◌, map, ◌||◌, ◌==◌,
}
use sightpane.Prelude.Int.{ℤ}
use sightpane.Prelude.Text.{Text, codes, text_eq, trim_space}

-- `lower` is unicode.ToLower, `pbkdf2` is pbkdf2.Key over SHA-256 with the password, the salt, the
-- number of iterations and the length of the key, `sha256_hex` is hex.EncodeToString of
-- sha256.Sum256.
pub record AccessLib : Type 0 where
  pub lower : ℕ → ℕ
  pub pbkdf2 : Text → List ℕ → ℤ → ℕ → Option (List ℕ)
  pub sha256_hex : Text → Text

pub record User : Type 0 where
  pub id : ℕ
  pub email : Text
  pub name : Text
  pub locale : Text
  pub password_hash : Text

pub record AuthToken : Type 0 where
  pub token_hash : Text
  pub user_id : ℕ
  pub expires_at : ℕ

pub record Member : Type 0 where
  pub project_id : ℕ
  pub user_id : ℕ
  pub role : Text

pub record OrgMember : Type 0 where
  pub org_id : ℕ
  pub user_id : ℕ
  pub role : Text

pub record Org : Type 0 where
  pub id : ℕ
  pub name : Text

-- The two columns of a project that are read here.
pub record Project : Type 0 where
  pub id : ℕ
  pub org_id : Option ℕ

pub record ApiToken : Type 0 where
  pub id : ℕ
  pub org_id : ℕ
  pub project_id : Option ℕ
  pub name : Text
  pub token_hash : Text
  pub token_prefix : Text
  pub scopes : List Text
  pub expires_at : Option ℕ
  pub created_by : Option ℕ

pub record AccessDb : Type 0 where
  pub users : List User
  pub next_user : ℕ
  pub auth_tokens : List AuthToken
  pub project_members : List Member
  pub projects : List Project
  pub orgs : List Org
  pub next_org : ℕ
  pub org_members : List OrgMember
  pub api_tokens : List ApiToken
  pub next_token : ℕ

pub data AccessError : Type 0 where
  not_found email_taken invalid_email password_too_short bad_credentials bad_locale : AccessError
  org_name_required invalid_role refused : AccessError

pub data Result (A : Type 0) : Type 0 where
  done : A → Result A
  failed : AccessError → Result A

-- strings.ToLower(strings.TrimSpace(s))
unfoldable pub normal : AccessLib → Text → Text
normal lib s = map lib.lower (trim_space s)

abbrev pub owner : Text
owner = codes "owner"

abbrev pub admin : Text
admin = codes "admin"

abbrev pub member : Text
member = codes "member"

abbrev pub viewer : Text
viewer = codes "viewer"
