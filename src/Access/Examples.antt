-- ===== src/Access/Examples.antt =====
-- Accounts and checks at concrete inputs.
use mathlib.Core.Path.{subst}
use sightpane.Prelude.{
  ℕ, zero, suc, ◌+◌, ◌%◌, ◌*◌, ◌≡◌, ◌<◌, ◌↔◌, ◌⊎◌, refl, Bool, true, false, ◌&&◌, Option, none,
  some, List, [], ◌∷◌, arith, All, find, length, leb, if◌then◌else◌,
}
use sightpane.Prelude.Int.{pos}
use sightpane.Prelude.Text.{Text, codes, text_eq}
use sightpane.Prelude.Base64.{IsByte}
use sightpane.Access.{
  AccessLib, User, AuthToken, Member, OrgMember, Org, Project, ApiToken, AccessDb, Result, done,
  failed, not_found, viewer, owner, member,
}
use sightpane.Access.Password.{
  hash_password, verify_password, KeyIsBytes, pbkdf_iter, verify_password-hash_password,
}
use sightpane.Access.Accounts.{
  create_user, login, user_by_token, revoke_token, token_ttl, remove_member, has_hash, has_id,
  is_project,
}
use sightpane.Access.Accounts.Login.{login-Session}
use sightpane.Access.Orgs.{remove_org_member}
use sightpane.Access.Gate.{require_project, require_org, project_not_found}
use sightpane.Access.Gate.Removed.{removed-refused}
use sightpane.Access.Gate.Scopes.{rescope, require_org-rescope}
use sightpane.Access.Gate.Admitted.{TokenAdmits, SessionAdmits, require_project-IsAdmitted}

abbrev sum : Text → ℕ
sum [] = 0
sum (c ∷ s) = c + sum s

abbrev fill : ℕ → ℕ → List ℕ
fill zero b = []
fill (suc n) b = b ∷ fill n b

-- A key that repeats one byte, and a hash that is the text itself.
abbrev lib : AccessLib
lib = record {
  lower = λ c. if leb 65 c && leb c 90 then c + 32 else c;
  pbkdf2 = λ pw salt iter len. some (fill len ((sum pw + sum salt) % 256));
  sha256_hex = λ s. s;
}

length-fill : (n b : ℕ) → length (fill n b) ≡ n
length-fill zero b = refl
length-fill (suc n) b = omega (arith, length-fill n b)

fill-IsByte : (n b : ℕ) → b < 256 → All IsByte (fill n b)
fill-IsByte zero b h = tt
fill-IsByte (suc n) b h = (h, fill-IsByte n b h)

lib-KeyIsBytes : KeyIsBytes lib
lib-KeyIsBytes = record {
  length_of = λ pw salt iter len key e. ground (arith, length-fill len ((sum pw + sum salt) % 256));
  bytes_of = λ pw salt iter len key e.
      let same : fill len ((sum pw + sum salt) % 256) ≡ key = ground arith in
      subst (All IsByte) same (fill-IsByte len ((sum pw + sum salt) % 256) (omega arith));
}

abbrev salt : List ℕ
salt = 1 ∷ 2 ∷ 255 ∷ []

-- The key is 32 times the byte 136.
abbrev stored : Text
stored = codes "pbkdf2$120000$AQL/$iIiIiIiIiIiIiIiIiIiIiIiIiIiIiIiIiIiIiIiIiIg"

hashed : hash_password lib (codes "secret") salt ≡ some stored
unfolding hash_password sightpane.Prelude.Base64.encode sightpane.Prelude.Decimal.itoa
hashed = refl

verify_password-hash_password_example :
    (verify_password lib stored (codes "secret") ≡ true)
    × ((verify_password lib stored (codes "secrets") ≡ true) ↔ (
        lib.pbkdf2 (codes "secrets") salt (pos pbkdf_iter) 32
        ≡ lib.pbkdf2 (codes "secret") salt (pos pbkdf_iter) 32))
verify_password-hash_password_example =
    verify_password-hash_password lib (codes "secret") (codes "secrets") salt stored lib-KeyIsBytes
      (omega arith, (omega arith, (omega arith, tt))) hashed

abbrev empty_db : AccessDb
empty_db = record {
  users = [];
  next_user = 1;
  auth_tokens = [];
  project_members = [];
  projects = record { id = 7; org_id = some 3 } ∷ [];
  orgs = record { id = 3; name = codes "Acme" } ∷ [];
  next_org = 4;
  org_members = record { org_id = 3; user_id = 1; role = member } ∷ [];
  api_tokens = [];
  next_token = 1;
}

abbrev ann : User
ann = record {
  id = 1;
  email = codes "ann@example.com";
  name = codes "Ann";
  locale = [];
  password_hash = stored;
}

abbrev with_ann : AccessDb
with_ann = record empty_db { users = ann ∷ []; next_user = 2 }

registered :
    create_user lib (codes " Ann@Example.com ") (codes "Ann") (codes "secret") salt empty_db
    ≡ done (ann, with_ann)
unfolding create_user hash_password sightpane.Prelude.Base64.encode sightpane.Prelude.Decimal.itoa
    sightpane.Prelude.Text.contains sightpane.Prelude.Text.trim_space find
registered = refl

login-Session_example :
    (db2 : AccessDb) × (login lib
        (codes " Ann@Example.com ")
        (codes "secret")
        (codes "t0k")
        100
        with_ann
      ≡ done (codes "t0k", ann, db2))
    × (user_by_token lib (codes "t0k") 200 db2 ≡ done ann)
    × (user_by_token lib (codes "t0k") 200 (revoke_token lib (codes "t0k") db2) ≡ failed not_found)
login-Session_example =
    login-Session lib (codes " Ann@Example.com ") (codes "secret") (codes "t0k") 100 200
      (codes "Ann") salt empty_db with_ann ann lib-KeyIsBytes
      (omega arith, (omega arith, (omega arith, tt))) tt registered (unfold find in refl)
      (omega arith)

abbrev signed_in : AccessDb
signed_in = record with_ann {
  auth_tokens = record { token_hash = codes "t0k"; user_id = 1; expires_at = 1000 } ∷ [];
}

abbrev signed_out : AccessDb
signed_out = record signed_in { org_members = [] }

known : user_by_token lib (codes "t0k") 200 signed_in ≡ done ann
unfolding user_by_token find text_eq sightpane.Access.Accounts.user_by_id
known = refl

let_in :
    require_project lib member
      (codes "t0k")
      200
      7
      (codes "/api/projects/7")
      (codes "POST")
      signed_in
    ≡ none
unfolding require_project find text_eq sightpane.Access.Gate.authenticate
    sightpane.Access.Gate.allow sightpane.Access.Accounts.member_role
    sightpane.Access.Accounts.user_by_token sightpane.Access.Accounts.user_by_id
    sightpane.Prelude.Text.is_empty sightpane.Prelude.Text.has_prefix
let_in = refl

require_project-IsAdmitted_example :
    TokenAdmits lib (codes "t0k") (codes "/api/projects/7") (codes "POST") 200 7 signed_in
    ⊎ SessionAdmits lib member (codes "t0k") (codes "POST") 200 7 signed_in
require_project-IsAdmitted_example =
    require_project-IsAdmitted lib member (codes "t0k") (codes "/api/projects/7") (codes "POST") 200
      7 signed_in let_in

removed-refused_example :
    require_project lib member
      (codes "t0k")
      200
      7
      (codes "/api/projects/7")
      (codes "GET")
      signed_out
    ≡ some project_not_found
unfolding find
removed-refused_example =
    removed-refused lib (codes "t0k") member (codes "/api/projects/7") (codes "GET") 200 7 3 ann
      signed_in signed_out (record { id = 7; org_id = some 3 })
      (unfold sightpane.Prelude.Text.is_empty in refl)
      (unfold sightpane.Prelude.Text.has_prefix in refl) known (unfold is_project in refl) refl
      (unfold remove_org_member remove_member sightpane.Prelude.Lists.keep in refl)

abbrev read_only : ApiToken
read_only = record {
  id = 1;
  org_id = 9;
  project_id = some 8;
  name = codes "ci";
  token_hash = codes "sp_1";
  token_prefix = codes "sp_1...";
  scopes = codes "read" ∷ [];
  expires_at = none;
  created_by = some 1;
}

-- A read-only token of another organisation deletes an organisation that its creator owns.
abbrev owned : AccessDb
owned = record with_ann {
  org_members = record { org_id = 3; user_id = 1; role = owner } ∷ [];
  api_tokens = read_only ∷ [];
}

token_of_reader_owns : require_org lib owner (codes "sp_1") 200 3 (codes "DELETE") owned ≡ none
unfolding require_org find text_eq sightpane.Access.Gate.authenticate
    sightpane.Access.Orgs.api_token_by_secret sightpane.Access.Orgs.org_member_role
    sightpane.Access.Accounts.user_by_id sightpane.Prelude.Text.is_empty
    sightpane.Prelude.Text.has_prefix
token_of_reader_owns = refl

require_org-rescope_example :
    require_org lib owner (codes "sp_1") 200 3 (codes "DELETE") (rescope lib [] 4 none owned)
    ≡ require_org lib owner (codes "sp_1") 200 3 (codes "DELETE") owned
require_org-rescope_example =
    require_org-rescope lib [] 4 none owner (codes "sp_1") (codes "DELETE") 200 3 owned
