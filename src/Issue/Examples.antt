-- ===== src/Issue/Examples.antt =====
-- Issues at concrete inputs.
use sightpane.Prelude.{
  ℕ, ◌+◌, ◌≡◌, ◌≢◌, ◌↔◌, ◌==◌, ◌&&◌, refl, some, none, List, [], ◌∷◌, true, false, arith, length,
  All, find, if◌then◌else◌,
}
use sightpane.Prelude.Int.{pos}
use sightpane.Prelude.Text.{codes, text_eq}
use sightpane.Issue.{Issue, opened, resolved, ignored, snoozed}
use sightpane.Issue.Decide.{regression, new_issue, decide}
use sightpane.Issue.Occurrence.{Issues, Occurrence, key_of, find_issue, ingest_error, ingest_errors}
use sightpane.Issue.Occurrence.Events.{event_iff_reopened}
use sightpane.Issue.Occurrence.Table.{row_after, find_issue-ingest_error}
use sightpane.Issue.Workflow.{snooze_issue, update_issue, has_id}
use sightpane.Issue.Workflow.Flag.{
  IsConsistentTable, here, next, error, snooze, Reach-IsConsistentTable,
}
use sightpane.Issue.Workflow.Snooze.{IsAsleep, IsQuiet, snooze_lasts}
use sightpane.Issue.Merge.{Item, MergeDb, Merged, merged, merge_issue, is_item_of}
use sightpane.Issue.Merge.Totals.{live_total, live_total-merge_issue}
use sightpane.Issue.Merge.Items.{items_of, items_of-merge_issue}
use sightpane.Issue.Merge.Forest.{IsForest, merge_issue-IsForest}

abbrev crash : Issue
crash = record {
  id = 1;
  project_id = 7;
  fingerprint = codes "abc";
  title = codes "Crash";
  exception = codes "IOError";
  first_seen = 100;
  last_seen = 200;
  count = 5;
  resolved = true;
  status = resolved;
  assignee_user_id = none;
  snooze_until = none;
  snooze_count_threshold = pos 0;
  snooze_start_count = 0;
  merged_into = none;
  first_release = codes "1.0";
  last_release = codes "1.1";
  resolved_in_release = codes "1.1";
}

abbrev hang : Issue
hang = record crash {
  id = 2;
  fingerprint = codes "def";
  count = 3;
  resolved = false;
  status = opened;
}

abbrev two_issues : Issues
two_issues = record { rows = crash ∷ hang ∷ []; next_id = 3 }

abbrev crash_again : Occurrence
crash_again = record {
  project_id = 7;
  fingerprint = codes "abc";
  title = codes "Crash";
  exception = codes "IOError";
  ts = 300;
  release = codes "1.2";
  rule = none;
}

crash_found : find_issue 7 (codes "abc") two_issues.rows ≡ some crash
unfolding find_issue find text_eq
crash_found = refl

event_iff_reopened_example :
    (((decide false (some crash) 300 (codes "1.2")).event_kind ≢ none) ↔ (
      (crash.status ≢ opened)
      × ((decide false (some crash) 300 (codes "1.2")).target_status ≡ opened)))
    × ((decide false (some crash) 300 (codes "1.2")).event_kind ≢ some new_issue)
event_iff_reopened_example = event_iff_reopened false crash 300 (codes "1.2")

find_issue-ingest_error_example :
    find_issue 7 (codes "abc") (ingest_error crash_again two_issues).0.rows ≡ (
      if 7 == 7 && text_eq (key_of crash_again) (codes "abc")
      then some (row_after crash_again 3 (find_issue 7 (codes "abc") two_issues.rows))
      else find_issue 7 (codes "abc") two_issues.rows)
find_issue-ingest_error_example = find_issue-ingest_error crash_again two_issues 7 (codes "abc")

snooze_lasts_example :
    All IsQuiet (ingest_errors (crash_again ∷ []) (snooze_issue 1 none (pos 2) two_issues)).1
    × IsAsleep 7
        (codes "abc")
        2
        5
        (5 + 1)
        (ingest_errors (crash_again ∷ []) (snooze_issue 1 none (pos 2) two_issues)).0
    × ((ingest_error crash_again
          (ingest_errors
            (crash_again ∷ [])
            (snooze_issue 1 none (pos 2) two_issues)).0).1.event_kind
        ≡ some regression)
unfolding sightpane.Issue.Rule.regroup
snooze_lasts_example =
    snooze_lasts 7 (codes "abc") 2 two_issues crash (crash_again ∷ []) crash_again crash_found
      ((refl, refl), tt) (refl, refl) refl

Reach-IsConsistentTable_example :
    IsConsistentTable (snooze_issue 1 none (pos 2) (ingest_error crash_again two_issues).0)
unfolding sightpane.Issue.is_resolved
Reach-IsConsistentTable_example =
    Reach-IsConsistentTable {lower = λ c. c} {t = two_issues} (refl, (refl, tt))
      (next (next here (error crash_again)) (snooze 1 none (pos 2)))

abbrev crash_item : Item
crash_item = record { project_id = 7; issue_id = some 1 }

abbrev before_merge : MergeDb
before_merge = record {
  issues = two_issues;
  items = crash_item ∷ record { project_id = 7; issue_id = some 2 } ∷ [];
}

abbrev after_merge : MergeDb
after_merge = record {
  issues = record {
    rows = record crash { merged_into = some 2; status = ignored } ∷ record hang { count = 8 } ∷ [];
    next_id = 3;
  };
  items =
      record { project_id = 7; issue_id = some 2 }
      ∷ record { project_id = 7; issue_id = some 2 }
      ∷ [];
}

-- The flag `resolved` of the merged issue stays set although its status is "ignored".
merge_run : merge_issue 1 2 before_merge ≡ merged after_merge
unfolding merge_issue find has_id sightpane.Issue.Merge.is_merged sightpane.Issue.Merge.write_merge
    update_issue sightpane.Prelude.update_where sightpane.Issue.Merge.merge_into
    sightpane.Issue.Merge.add_count is_item_of sightpane.Issue.Merge.move_to
merge_run = refl

live_total-merge_issue_example :
    live_total after_merge.issues.rows ≡ live_total before_merge.issues.rows
unfolding has_id
live_total-merge_issue_example =
    live_total-merge_issue 1 2 before_merge after_merge ((refl, tt), (tt, tt)) merge_run

items_of-merge_issue_example :
    (s : Issue) × (find (has_id 1) before_merge.issues.rows ≡ some s)
    × (items_of 1 s.project_id after_merge.items ≡ 0)
    × (items_of 2 s.project_id after_merge.items
        ≡ items_of 2 s.project_id before_merge.items + items_of 1 s.project_id before_merge.items)
items_of-merge_issue_example = items_of-merge_issue 1 2 before_merge after_merge merge_run

free-IsForest : IsForest before_merge.issues.rows
free-IsForest = (λ a. 0, ((λ t m. cc), ((λ t m. cc), tt)))

merge_issue-IsForest_example : IsForest after_merge.issues.rows
unfolding has_id
merge_issue-IsForest_example =
    merge_issue-IsForest 1 2 before_merge after_merge ((refl, tt), (tt, tt)) free-IsForest merge_run
