-- ===== src/Issue/Merge/Items.antt =====
-- A merge loses no item.
use sightpane.Prelude.{
  ◌≡◌, refl, ◌==◌, false, some, arith, ℕ, ◌+◌, List, [], ◌∷◌, find, update_where, if◌then◌else◌,
}
use sightpane.Issue.{Issue}
use sightpane.Issue.Workflow.{has_id}
use sightpane.Issue.Merge.{Item, MergeDb, merged, is_item_of, move_to, write_merge, merge_issue}
use sightpane.Issue.Merge.Inversion.{merge_issue_inversion}

pub items_of : ℕ → ℕ → List Item → ℕ
items_of issue project [] = 0
items_of issue project (it ∷ items) =
    (if is_item_of issue project it then 1 else 0) + items_of issue project items

moved_items :
    (source target project : ℕ) (items : List Item)
    → (source == target) ≡ false
    → (items_of source project (update_where (is_item_of source project) (move_to target) items)
        ≡ 0)
      × (items_of target project (update_where (is_item_of source project) (move_to target) items)
          ≡ items_of target project items + items_of source project items)
unfolding items_of update_where is_item_of move_to
moved_items source target project [] h = (refl, refl)
moved_items source target project (it ∷ items) h =
    let (p, q) = moved_items source target project items h in (ground arith, ground arith)

-- A merge moves every item of the source to the target: none is left, and none is lost.
pub items_of-merge_issue :
    (source target : ℕ) (db db' : MergeDb)
    → merge_issue source target db ≡ merged db'
    → (s : Issue) × (find (has_id source) db.issues.rows ≡ some s)
      × (items_of source s.project_id db'.items ≡ 0)
      × (items_of target s.project_id db'.items
          ≡ items_of target s.project_id db.items + items_of source s.project_id db.items)
unfolding write_merge
items_of-merge_issue source target db db' e =
    let (s, t, m, w) = merge_issue_inversion source target db db' e in
    let (p, q) = moved_items source target s.project_id db.items m.two in
    (s, m.source_row, rw w p, rw w q)
