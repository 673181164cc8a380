-- ===== src/Access/Gate/Removed.antt =====
-- A user who is removed from a project and from its organisation.
use mathlib.Core.Path.{subst}
use sightpane.Prelude.{ℕ, ◌≡◌, refl, false, ◌||◌, not, Option, none, some, [], find, keep}
use sightpane.Prelude.Text.{Text, codes, text_eq, has_prefix, is_empty}
use sightpane.Access.{AccessLib, User, Project, OrgMember, AuthToken, AccessDb, done}
use sightpane.Access.Accounts.{
  user_by_token, user_of_token, user_by_id, remove_member, member_role, has_hash, is_member,
  is_project, is_org_member, role_in_org_of, role_of_member,
}
use sightpane.Access.Accounts.Login.{find-keep-not}
use sightpane.Access.Orgs.{remove_org_member, remove_found}
use sightpane.Access.Gate.{
  passed, project_not_found, authenticate, by_session, allow, allow_caller, allow_role,
  require_project, when_passed,
}

-- The tables after both removals.
abbrev without_user : ℕ → ℕ → ℕ → AccessDb → AccessDb
without_user org project user db =
    let db' = remove_member project user db in
    record db' { org_members = keep (λ m. not (is_org_member org user m)) db'.org_members }

remove_found_inv :
    (o : Option OrgMember) (org user : ℕ) (db db' : AccessDb)
    → remove_found o org user db ≡ done db'
    → record db { org_members = keep (λ m. not (is_org_member org user m)) db.org_members } ≡ db'
unfolding remove_found
remove_found_inv none org user db db' e = cc
remove_found_inv (some m) org user db db' e = cc

module _ (project org user : ℕ) (db : AccessDb) (p : Project) (o : p.org_id ≡ some org)
    (known : find (is_project project) db.projects ≡ some p) where
  org_role-empty : role_in_org_of (some p) user (without_user org project user db) ≡ []
  unfolding role_in_org_of remove_member
  org_role-empty = rw (o, find-keep-not (is_org_member org user) db.org_members) refl

  member_role-empty : member_role project user (without_user org project user db) ≡ []
  unfolding member_role role_of_member remove_member text_eq
  member_role-empty =
      rw (known, org_role-empty, find-keep-not (is_member project user) db.project_members) refl

module _ (lib : AccessLib) (tok need path method : Text) (now project org : ℕ) (u : User)
    (db db' : AccessDb) (p : Project) where
  same_user :
      (o : Option AuthToken)
      → user_of_token lib o now (without_user org project u.id db) ≡ user_of_token lib o now db
  unfolding user_of_token user_by_id remove_member
  same_user none = refl
  same_user (some t) = refl

  same_session :
      user_by_token lib tok now (without_user org project u.id db) ≡ user_by_token lib tok now db
  unfolding user_by_token remove_member
  same_session = same_user (find (has_hash (lib.sha256_hex tok)) db.auth_tokens)

  -- A session that is known before the removals is known after them.
  still_known :
      is_empty tok ≡ false
      → has_prefix tok (codes "sp_") || has_prefix tok (codes "hog_") ≡ false
      → user_by_token lib tok now db ≡ done u
      → authenticate lib tok now (without_user org project u.id db)
        ≡ passed (record { user_id = u.id; token = none })
  unfolding authenticate by_session
  still_known e s k = rw (e, s, same_session, k) refl

  refused_without :
      is_empty tok ≡ false
      → has_prefix tok (codes "sp_") || has_prefix tok (codes "hog_") ≡ false
      → user_by_token lib tok now db ≡ done u
      → find (is_project project) db.projects ≡ some p
      → p.org_id ≡ some org
      → require_project lib need tok now project path method (without_user org project u.id db)
        ≡ some project_not_found
  unfolding require_project when_passed allow allow_caller allow_role is_empty
  refused_without e s k known o =
      rw (still_known e s k, member_role-empty project org u.id db p o known) refl

  -- Once a user is removed from a project and from its organisation, every route of the project
  -- answers a request of that user's session, by whatever method, as if the project did not exist.
  pub removed-refused :
      is_empty tok ≡ false
      → has_prefix tok (codes "sp_") || has_prefix tok (codes "hog_") ≡ false
      → user_by_token lib tok now db ≡ done u
      → find (is_project project) db.projects ≡ some p
      → p.org_id ≡ some org
      → remove_org_member org u.id (remove_member project u.id db) ≡ done db'
      → require_project lib need tok now project path method db' ≡ some project_not_found
  unfolding remove_org_member
  removed-refused e s k known o r =
      let same =
        remove_found_inv (find (is_org_member org u.id) (remove_member project u.id db).org_members)
          org u.id (remove_member project u.id db) db' r in
      subst (λ d. require_project lib need tok now project path method d ≡ some project_not_found)
        same (refused_without e s k known o)
