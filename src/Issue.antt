-- ===== src/Issue.antt =====
-- Issues, the groups of equal errors: their rows (internal/store/query.go), what an ingested error
-- does to its issue (the "error" case of internal/store/ingest.go) and the operations of a user on
-- an issue (internal/store/issue_workflow.go, internal/store/query.go).
pub mod Rule
pub mod Decide
pub mod Occurrence
pub mod Workflow
pub mod Merge
mod Examples
use sightpane.Prelude.{ℕ, Bool, true, false, Option}
use sightpane.Prelude.Int.{ℤ}
use sightpane.Prelude.Text.{Text}

-- `opened` is "open".
pub data Status : Type 0 where
  opened resolved ignored snoozed : Status

-- A row of `issues`. Instants are nanoseconds; no release is the empty text.
pub record Issue : Type 0 where
  pub id : ℕ
  pub project_id : ℕ
  pub fingerprint : Text
  pub title : Text
  pub exception : Text
  pub first_seen : ℕ
  pub last_seen : ℕ
  pub count : ℕ
  pub resolved : Bool
  pub status : Status
  pub assignee_user_id : Option ℕ
  pub snooze_until : Option ℕ
  pub snooze_count_threshold : ℤ
  pub snooze_start_count : ℕ
  pub merged_into : Option ℕ
  pub first_release : Text
  pub last_release : Text
  pub resolved_in_release : Text

unfoldable pub is_resolved : Status → Bool
is_resolved opened = false
is_resolved resolved = true
is_resolved ignored = false
is_resolved snoozed = false
