-- ===== src/Cohort.antt =====
-- Cohorts (internal/store/cohorts.go): the rows of cohorts and of their members, with the rows of
-- sessions and items that the rules count.
pub mod Count
pub mod Refresh
pub mod Table
mod Examples
use sightpane.Prelude.{ℕ, ◌*◌, Bool, Option, List}
use sightpane.Prelude.Int.{ℤ}
use sightpane.Prelude.Text.{Text}

abbrev pub day : ℕ
day = 24 * 3600 * 1000000000

-- How the database takes the cutoff of a window, time.AddDate of some days before an instant:
-- `refuses` is whether the query fails, as it does for a cutoff out of the range of TIMESTAMPTZ, and
-- `since` whether a third instant is not before the cutoff.
pub record CohortLib : Type 0 where
  pub refuses : ℕ → ℕ → Bool
  pub since : ℕ → ℕ → ℕ → Bool

pub record CohortRule : Type 0 where
  pub event : Text
  pub operator : Text
  pub count : ℤ
  pub window_days : ℤ

pub record Cohort : Type 0 where
  pub id : ℕ
  pub project_id : ℕ
  pub name : Text
  pub description : Text
  pub is_static : Bool
  pub rules : List CohortRule
  pub user_count : ℕ
  pub last_calculated_at : Option ℕ
  pub created_at : ℕ
  pub updated_at : ℕ

pub record Member : Type 0 where
  pub cohort_id : ℕ
  pub user_id : Text

-- What is read of a session and of an item.
pub record Session : Type 0 where
  pub id : Text
  pub project_id : ℕ
  pub user_id : Text
  pub started_at : ℕ

pub record Item : Type 0 where
  pub project_id : ℕ
  pub session_id : Text
  pub kind : Text
  pub name : Text
  pub ts : ℕ

pub record CohortDb : Type 0 where
  pub cohorts : List Cohort
  pub next_id : ℕ
  pub members : List Member
  pub sessions : List Session
  pub items : List Item

-- `none` is an error: ErrCohortNotFound or a query that was refused.
abbrev pub Result : Type 0 → Type 0
Result A = Option A
