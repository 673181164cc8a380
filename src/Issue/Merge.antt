-- ===== src/Issue/Merge.antt =====
-- MergeIssue (internal/store/issue_workflow.go): one transaction over `issues` and `items`.
pub mod Inversion
pub mod Totals
pub mod Items
pub mod Forest
use sightpane.Prelude.{
  ℕ, ◌+◌, ◌==◌, Bool, true, false, ◌&&◌, not, Option, none, some, List, find, update_where,
  if◌then◌else◌,
}
use sightpane.Issue.{Issue, ignored}
use sightpane.Issue.Occurrence.{Issues}
use sightpane.Issue.Workflow.{has_id, update_issue}

-- The columns of `items` that a merge reads and writes.
pub record Item : Type 0 where
  pub project_id : ℕ
  pub issue_id : Option ℕ

pub record MergeDb : Type 0 where
  pub issues : Issues
  pub items : List Item

pub data MergeError : Type 0 where
  into_itself not_found cross_project source_merged target_merged : MergeError

-- A failed transaction is rolled back.
pub data Merged : Type 0 where
  merged : MergeDb → Merged
  failed : MergeError → Merged

unfoldable pub is_merged : Issue → Bool
is_merged i = elim i.merged_into [ none ↦ false | some t ↦ true ]

-- SET merged_into=$1, status='ignored'
unfoldable pub merge_into : ℕ → Issue → Issue
merge_into target i = record i { merged_into = some target; status = ignored }

-- SET count=count+$1
unfoldable pub add_count : ℕ → Issue → Issue
add_count n i = record i { count = i.count + n }

-- WHERE issue_id=$2 AND project_id=$3
unfoldable pub is_item_of : ℕ → ℕ → Item → Bool
is_item_of issue project it = elim it.issue_id [
  | none ↦ false
  | some j ↦ j == issue && it.project_id == project
]

unfoldable pub move_to : ℕ → Item → Item
move_to target it = record it { issue_id = some target }

-- The three updates.
unfoldable pub write_merge : ℕ → ℕ → Issue → MergeDb → MergeDb
write_merge source target s db = record {
  issues =
      update_issue target (add_count s.count) (update_issue source (merge_into target) db.issues);
  items = update_where (is_item_of source s.project_id) (move_to target) db.items;
}

checked : ℕ → ℕ → Issue → Issue → MergeDb → Merged
checked source target s t db =
    if not (s.project_id == t.project_id)
    then failed cross_project
    else if is_merged s
    then failed source_merged
    else if is_merged t
    then failed target_merged
    else merged (write_merge source target s db)

with_target : ℕ → ℕ → Issue → Option Issue → MergeDb → Merged
with_target source target s none db = failed not_found
with_target source target s (some t) db = checked source target s t db

with_source : ℕ → ℕ → Option Issue → Option Issue → MergeDb → Merged
with_source source target none t db = failed not_found
with_source source target (some s) t db = with_target source target s t db

unfoldable pub merge_issue : ℕ → ℕ → MergeDb → Merged
unfolding checked with_target with_source
merge_issue source target db =
    if source == target
    then failed into_itself
    else with_source source target (find (has_id source) db.issues.rows)
        (find (has_id target) db.issues.rows) db
