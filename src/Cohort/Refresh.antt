-- ===== src/Cohort/Refresh.antt =====
-- RefreshCohortMembers (internal/store/cohorts.go), with one instant for all its calls of time.Now.
pub mod Users
pub mod Members
use sightpane.Prelude.{
  ℕ, ◌==◌, Bool, not, ◌&&◌, Option, none, some, List, [], ◌∷◌, ◌++◌, find, keep, length,
  update_where, if◌then◌else◌,
}
use sightpane.Prelude.Text.{Text, text_eq}
use sightpane.Cohort.{CohortLib, CohortRule, Cohort, Member, CohortDb, Result}
use sightpane.Cohort.Count.{is_in, is_refused, rule_users}

unfoldable pub get_cohort : ℕ → ℕ → CohortDb → Result Cohort
get_cohort project id db = find (λ c. c.project_id == project && c.id == id) db.cohorts

unfoldable pub is_member : ℕ → Text → Member → Bool
is_member id user m = m.cohort_id == id && text_eq m.user_id user

-- INSERT ... ON CONFLICT DO NOTHING
unfoldable pub put_member : Option Member → ℕ → Text → List Member → List Member
put_member none id user ms = ms ++ record { cohort_id = id; user_id = user } ∷ []
put_member (some m) id user ms = ms

unfoldable pub insert_users : ℕ → List Text → List Member → List Member
unfolding is_member put_member
insert_users id [] ms = ms
insert_users id (u ∷ us) ms = insert_users id us (put_member (find (is_member id u) ms) id u ms)

-- The transaction.
unfoldable pub write_members : ℕ → ℕ → List Text → CohortDb → CohortDb
unfolding insert_users
write_members id now users db = record db {
  members = insert_users id users (keep (λ m. not (m.cohort_id == id)) db.members);
  cohorts =
      update_where (λ c. c.id == id)
        (λ c. record c {
          user_count = length users;
          last_calculated_at = some now;
          updated_at = now;
        })
        db.cohorts;
}

module _ (lib : CohortLib) where
  -- The users of the rules that are left, among those found so far.
  unfoldable pub intersect : ℕ → ℕ → CohortDb → List CohortRule → List Text → List Text
  unfolding is_in rule_users
  intersect project now db [] users = users
  intersect project now db (r ∷ rs) users =
      intersect project now db rs (keep (λ u. is_in u (rule_users lib project now db r)) users)

  unfoldable pub matching_users : ℕ → ℕ → CohortDb → List CohortRule → List Text
  unfolding intersect rule_users
  matching_users project now db [] = []
  matching_users project now db (r ∷ rs) =
      intersect project now db rs (rule_users lib project now db r)

  unfoldable pub refresh_rules : List CohortRule → ℕ → ℕ → ℕ → CohortDb → Result CohortDb
  unfolding write_members matching_users is_refused
  refresh_rules [] project id now db = some db
  refresh_rules (r ∷ rs) project id now db =
      if is_refused lib now (r ∷ rs)
      then none
      else some (write_members id now (matching_users project now db (r ∷ rs)) db)

  unfoldable pub refresh_found : Option Cohort → ℕ → ℕ → ℕ → CohortDb → Result CohortDb
  unfolding refresh_rules
  refresh_found none project id now db = none
  refresh_found (some c) project id now db =
      if c.is_static then some db else refresh_rules c.rules project id now db

  unfoldable pub refresh_cohort_members : ℕ → ℕ → ℕ → CohortDb → Result CohortDb
  unfolding refresh_found get_cohort
  refresh_cohort_members project id now db =
      refresh_found (get_cohort project id db) project id now db
