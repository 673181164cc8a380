-- ===== src/Issue/Merge/Inversion.antt =====
-- What a successful merge went through.
use sightpane.Prelude.{
  ◌≡◌, refl, ◌==◌, false, Option, none, some, arith, ℕ, find, Bool-cases, inl, inr,
}
use sightpane.Issue.{Issue}
use sightpane.Issue.Workflow.{has_id}
use sightpane.Issue.Merge.{
  MergeDb, merged, is_merged, write_merge, merge_issue, checked, with_target, with_source,
}

pub record IsMergeable (source target : ℕ) (s t : Issue) (db : MergeDb) : Type 0 where
  pub two : (source == target) ≡ false
  pub source_row : find (has_id source) db.issues.rows ≡ some s
  pub target_row : find (has_id target) db.issues.rows ≡ some t
  pub one_project : s.project_id ≡ t.project_id
  pub source_free : is_merged s ≡ false
  pub target_free : is_merged t ≡ false

checked_inversion :
    (source target : ℕ) (s t : Issue) (db db' : MergeDb)
    → checked source target s t db ≡ merged db'
    → (s.project_id ≡ t.project_id)
      × (is_merged s ≡ false)
      × (is_merged t ≡ false)
      × (db' ≡ write_merge source target s db)
unfolding checked
checked_inversion source target s t db db' e = ground arith

rows_inversion :
    (source target : ℕ) (so to : Option Issue) (db db' : MergeDb)
    → with_source source target so to db ≡ merged db'
    → (s t : Issue) × (so ≡ some s) × (to ≡ some t) × (checked source target s t db ≡ merged db')
unfolding with_source with_target
rows_inversion source target none to db db' e = cc
rows_inversion source target (some s) none db db' e = cc
rows_inversion source target (some s) (some t) db db' e = (s, t, refl, refl, e)

-- A merge succeeds only on two different issues of one project, neither of them merged, and is then
-- the three updates.
pub merge_issue_inversion :
    (source target : ℕ) (db db' : MergeDb)
    → merge_issue source target db ≡ merged db'
    → (s t : Issue) × IsMergeable source target s t db × (db' ≡ write_merge source target s db)
unfolding merge_issue
merge_issue_inversion source target db db' e = elim (Bool-cases (source == target)) [
  | inl same ↦ absurd (ground arith)
  | inr two ↦
      let e' : with_source source target (find (has_id source) db.issues.rows)
            (find (has_id target) db.issues.rows) db
          ≡ merged db' =
        rw two at e in
      let (s, t, fs, ft, c) = rows_inversion source target _ _ db db' e' in
      let (p, ms, mt, w) = checked_inversion source target s t db db' c in
      (
        s,
        t,
        record {
          two = two;
          source_row = fs;
          target_row = ft;
          one_project = p;
          source_free = ms;
          target_free = mt;
        },
        w,
      )
]
