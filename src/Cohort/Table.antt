-- ===== src/Cohort/Table.antt =====
-- The operations on cohorts (internal/store/cohorts.go).
use sightpane.Prelude.{
  ℕ, ◌+◌, ◌==◌, Bool, not, ◌&&◌, Option, none, some, List, [], ◌∷◌, ◌++◌, find, keep, length,
  update_where, if◌then◌else◌,
}
use sightpane.Prelude.Text.{Text, is_empty}
use sightpane.Cohort.{CohortLib, CohortRule, Cohort, Member, CohortDb, Result}
use sightpane.Cohort.Refresh.{is_member, put_member, get_cohort, refresh_cohort_members}

add_members : ℕ → List Text → List Member → List Member
unfolding is_member put_member
add_members id [] ms = ms
add_members id (u ∷ us) ms =
    add_members id us (if is_empty u then ms else put_member (find (is_member id u) ms) id u ms)

-- The error of a refresh is dropped.
refreshed : CohortLib → ℕ → ℕ → ℕ → CohortDb → CohortDb
unfolding refresh_cohort_members
refreshed lib project id now db = elim (refresh_cohort_members lib project id now db) [
  | none ↦ db
  | some db' ↦ db'
]

has_rules : List CohortRule → Bool
has_rules [] = Bool.false
has_rules (r ∷ rs) = Bool.true

unfoldable pub create_cohort :
    CohortLib
    → ℕ
    → Text
    → Text
    → Bool
    → List CohortRule
    → List Text
    → ℕ
    → CohortDb
    → CohortDb × Result Cohort
unfolding add_members refreshed has_rules get_cohort
create_cohort lib project name description is_static rules initial now db =
    let row : Cohort = record {
      id = db.next_id;
      project_id = project;
      name = name;
      description = description;
      is_static = is_static;
      rules = rules;
      user_count = length initial;
      last_calculated_at = none;
      created_at = now;
      updated_at = now;
    } in
    let stored = record db {
      cohorts = db.cohorts ++ row ∷ [];
      next_id = db.next_id + 1;
      members = if is_static then add_members db.next_id initial db.members else db.members;
    } in
    let final = refreshed lib project row.id now stored in
    if not is_static && has_rules rules
    then (final, get_cohort project row.id final)
    else (stored, some row)

reread : CohortLib → Option Cohort → ℕ → ℕ → ℕ → CohortDb → CohortDb × Result Cohort
unfolding refreshed get_cohort
reread lib none project id now db = (db, none)
reread lib (some c) project id now db =
    let final = refreshed lib project id now db in
    if c.is_static then (db, some c) else (final, get_cohort project id final)

update_found :
    CohortLib
    → Option Cohort
    → ℕ
    → ℕ
    → Text
    → Text
    → List CohortRule
    → ℕ
    → CohortDb
    → CohortDb × Result Cohort
unfolding reread get_cohort
update_found lib none project id name description rules now db = (db, none)
update_found lib (some old) project id name description rules now db =
    let stored = record db {
      cohorts =
          update_where (λ c. c.project_id == project && c.id == id)
            (λ c. record c {
              name = name;
              description = description;
              rules = rules;
              updated_at = now;
            })
            db.cohorts;
    } in
    reread lib (get_cohort project id stored) project id now stored

unfoldable pub update_cohort :
    CohortLib → ℕ → ℕ → Text → Text → List CohortRule → ℕ → CohortDb → CohortDb × Result Cohort
unfolding update_found get_cohort
update_cohort lib project id name description rules now db =
    update_found lib (get_cohort project id db) project id name description rules now db

-- The members go with it: ON DELETE CASCADE.
delete_found : Option Cohort → ℕ → ℕ → CohortDb → Result CohortDb
delete_found none project id db = none
delete_found (some c) project id db = some (record db {
  cohorts = keep (λ q. not (q.project_id == project && q.id == id)) db.cohorts;
  members = keep (λ m. not (m.cohort_id == id)) db.members;
})

unfoldable pub delete_cohort : ℕ → ℕ → CohortDb → Result CohortDb
unfolding delete_found get_cohort
delete_cohort project id db = delete_found (get_cohort project id db) project id db
