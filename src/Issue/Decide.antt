-- ===== src/Issue/Decide.antt =====
-- The status that an error leaves its issue in, and the event it raises (internal/store/ingest.go).
use sightpane.Prelude.{
  ℕ, ◌+◌, Bool, true, false, ◌&&◌, ◌||◌, Option, none, some, Ordering, ltb, leb, if◌then◌else◌,
}
use sightpane.Prelude.Int.{ℤ, pos, negsuc}
use sightpane.Prelude.Text.{Text, is_empty}
use sightpane.Semver.{compare_versions}
use sightpane.Issue.{Issue, Status, opened, resolved, ignored, snoozed}

pub data EventKind : Type 0 where
  new_issue regression : EventKind

pub record Verdict : Type 0 where
  pub target_status : Status
  pub event_kind : Option EventKind

-- prevSnoozeUntil != nil && !ts.Before(*prevSnoozeUntil)
snooze_is_over : Option ℕ → ℕ → Bool
snooze_is_over none ts = false
snooze_is_over (some until) ts = leb until ts

-- prevSnoozeThreshold > 0 && (prevCount+1-prevSnoozeStart) >= prevSnoozeThreshold, in integers
snooze_is_full : ℤ → ℕ → ℕ → Bool
snooze_is_full (pos n) start count = ltb 0 n && leb (n + start) (count + 1)
snooze_is_full (negsuc n) start count = false

unfoldable pub woken : Issue → ℕ → Bool
unfolding snooze_is_over snooze_is_full
woken prev ts =
    snooze_is_over prev.snooze_until ts
    || snooze_is_full prev.snooze_count_threshold prev.snooze_start_count prev.count

-- An issue that is resolved in a release, and is seen in an older one.
unfoldable pub older_release : Text → Text → Bool
older_release release resolved_in =
    if is_empty resolved_in || is_empty release
    then false
    else elim (compare_versions release resolved_in) [ Ordering.lt ↦ true | _ ↦ false ]

decide_by_status : Status → Issue → ℕ → Text → Verdict
decide_by_status ignored prev ts release = record { target_status = ignored; event_kind = none }
decide_by_status snoozed prev ts release =
    if woken prev ts
    then record { target_status = opened; event_kind = some regression }
    else record { target_status = snoozed; event_kind = none }
decide_by_status resolved prev ts release =
    if older_release release prev.resolved_in_release
    then record { target_status = resolved; event_kind = none }
    else record { target_status = opened; event_kind = some regression }
decide_by_status opened prev ts release = record { target_status = opened; event_kind = none }

-- `ignoring` is whether an "ignore" rule matched; it counts only where the issue is new.
unfoldable pub decide : Bool → Option Issue → ℕ → Text → Verdict
unfolding decide_by_status
decide true none ts release = record { target_status = ignored; event_kind = none }
decide false none ts release = record { target_status = opened; event_kind = some new_issue }
decide ignoring (some prev) ts release = decide_by_status prev.status prev ts release
