-- ===== src/Issue/Workflow.antt =====
-- The operations of a user on one issue, by its id (internal/store/issue_workflow.go and
-- SetIssueResolvedWithRelease of internal/store/query.go).
pub mod Flag
pub mod Snooze
use sightpane.Prelude.{
  ℕ, ◌==◌, Bool, true, false, Option, none, some, List, [], update_where, find, if◌then◌else◌, map,
}
use sightpane.Prelude.Int.{ℤ}
use sightpane.Prelude.Text.{Text, codes, text_eq, is_empty}
use sightpane.Issue.{Issue, Status, opened, resolved, ignored, snoozed, is_resolved}
use sightpane.Issue.Occurrence.{Issues}

pub data WorkflowError : Type 0 where
  invalid_status not_found : WorkflowError

pub data Changed : Type 0 where
  changed : Issues → Changed
  failed : WorkflowError → Changed

unfoldable pub has_id : ℕ → Issue → Bool
has_id id i = i.id == id

-- UPDATE issues SET … WHERE id=…
unfoldable pub update_issue : ℕ → (Issue → Issue) → Issues → Issues
unfolding has_id
update_issue id f t = record t { rows = update_where (has_id id) f t.rows }

unfoldable pub assign_issue : ℕ → Option ℕ → Issues → Issues
assign_issue id user t = update_issue id (λ i. record i { assignee_user_id = user }) t

-- The four names that SetIssueStatus accepts, after strings.ToLower.
unfoldable pub read_status : Text → Option Status
read_status s =
    if text_eq s (codes "open")
    then some opened
    else if text_eq s (codes "resolved")
    then some resolved
    else if text_eq s (codes "ignored")
    then some ignored
    else if text_eq s (codes "snoozed")
    then some snoozed
    else none

with_status : Status → Issue → Issue
with_status s i = record i { status = s; resolved = is_resolved s }

set_read_status : ℕ → Option Status → Issues → Changed
set_read_status id none t = failed invalid_status
set_read_status id (some s) t = changed (update_issue id (with_status s) t)

-- `lower` is unicode.ToLower on a code point.
unfoldable pub set_issue_status : (ℕ → ℕ) → ℕ → Text → Issues → Changed
unfolding set_read_status with_status
set_issue_status lower id s t = set_read_status id (read_status (map lower s)) t

-- snooze_start_count=count
unfoldable pub snoozed_row : Option ℕ → ℤ → Issue → Issue
snoozed_row until threshold i = record i {
  status = snoozed;
  resolved = false;
  snooze_until = until;
  snooze_count_threshold = threshold;
  snooze_start_count = i.count;
}

unfoldable pub snooze_issue : ℕ → Option ℕ → ℤ → Issues → Issues
unfolding update_issue snoozed_row
snooze_issue id until threshold t = update_issue id (snoozed_row until threshold) t

-- COALESCE(NULLIF(last_release, ''), resolved_in_release) where no release is given.
release_for : Text → Issue → Text
release_for release i =
    if is_empty release
    then (if is_empty i.last_release then i.resolved_in_release else i.last_release)
    else release

resolved_row : Bool → Text → Issue → Issue
resolved_row true release i = record i {
  status = resolved;
  resolved = true;
  resolved_in_release = release_for release i;
}
resolved_row false release i = record i { status = opened; resolved = false }

-- RowsAffected() == 0
found_or : Option Issue → Issues → Changed
found_or none t = failed not_found
found_or (some i) t = changed t

unfoldable pub set_issue_resolved_with_release : ℕ → Bool → Text → Issues → Changed
unfolding release_for resolved_row found_or update_issue
set_issue_resolved_with_release id to release t =
    found_or (find (has_id id) t.rows) (update_issue id (resolved_row to release) t)

unfoldable pub set_issue_resolved : ℕ → Bool → Issues → Changed
unfolding set_issue_resolved_with_release
set_issue_resolved id to t = set_issue_resolved_with_release id to [] t
