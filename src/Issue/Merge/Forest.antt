-- ===== src/Issue/Merge/Forest.antt =====
-- Issues merged into one another form a forest: no chain of merges comes back to where it began.
use mathlib.Core.Path.{subst}
use sightpane.Prelude.{
  All-update_where, All-mono, All-both, All-find, find_sound, ◌≡◌, ◌==◌, true, false, some, arith,
  ℕ, ◌+◌, ◌<◌, List, [], ◌∷◌, All, find, if◌then◌else◌, Bool-cases, inl, inr,
}
use sightpane.Issue.{Issue}
use sightpane.Issue.Workflow.{has_id, update_issue}
use sightpane.Issue.Merge.{
  MergeDb, merged, is_merged, merge_into, add_count, write_merge, merge_issue,
}
use sightpane.Issue.Merge.Inversion.{IsMergeable, merge_issue_inversion}
use sightpane.Issue.Merge.Totals.{HasUniqueIds, has_id_same}

-- A rank that grows along every merge.
abbrev pub IsRanked : (ℕ → ℕ) → Issue → Type 0
IsRanked rank i = (t : ℕ) → i.merged_into ≡ some t → rank i.id < rank t

abbrev pub IsForest : List Issue → Type 0
IsForest rows = (rank : ℕ → ℕ) × All (IsRanked rank) rows

-- The chain of merges from one issue to another.
pub data Chain (rows : List Issue) : ℕ → ℕ → Type 0 where
  step :
      {a b : ℕ} (i : Issue)
      → find (has_id a) rows ≡ some i
      → i.merged_into ≡ some b
      → Chain rows a b
  more :
      {a b c : ℕ} (i : Issue)
      → find (has_id a) rows ≡ some i
      → i.merged_into ≡ some b
      → Chain rows b c
      → Chain rows a c

-- `t` is put above everything.
raise : (ℕ → ℕ) → ℕ → ℕ → ℕ → ℕ
raise rank s t a = if a == t then rank s + rank t + 1 else rank a

module _ (rows : List Issue) (rank : ℕ → ℕ) (ranked : All (IsRanked rank) rows) where
  Chain-lt : {a b : ℕ} → Chain rows a b → rank a < rank b
  unfolding has_id
  Chain-lt {a} {b} (step i f m) =
      let lt = All-find (IsRanked rank) (has_id a) rows ranked f b m in
      let same : i.id ≡ a = ground (arith, find_sound (has_id a) rows f) in
      subst (λ c. rank c < rank b) same lt
  Chain-lt {a} {b} (more {b = c} i f m r) =
      let lt = All-find (IsRanked rank) (has_id a) rows ranked f c m in
      let same : i.id ≡ a = ground (arith, find_sound (has_id a) rows f) in
      let lt' : rank a < rank c = subst (λ d. rank d < rank c) same lt in omega (arith, Chain-lt r)

-- In a forest no chain of merges comes back to its first issue.
IsForest-no_cycle : (rows : List Issue) (a : ℕ) → IsForest rows → ¬ Chain rows a a
IsForest-no_cycle rows a (rank, ranked) c = absurd (omega (arith, Chain-lt rows rank ranked c))

-- With distinct ids, a row under the id of an issue that is not merged is not merged.
free_rows :
    (a : ℕ) (rows : List Issue) (x : Issue)
    → HasUniqueIds rows
    → find (has_id a) rows ≡ some x
    → is_merged x ≡ false
    → All (λ i. has_id a i ≡ true → is_merged i ≡ false) rows
unfolding find
free_rows a [] x u f m = tt
free_rows a (i ∷ rows) x (u, us) f m = elim (Bool-cases (has_id a i)) [
  | inl e ↦
      let same : i ≡ x = ground arith in
      let others : All (λ j. has_id a j ≡ false) rows = rw (has_id_same a i e) u in
      (λ _. rw same m, All-mono (λ j. has_id a j ≡ false) _ rows (λ j n h. cc) others)
  | inr e ↦ (λ h. cc, free_rows a rows x us (rw e at f) m)
]

abbrev IsSound : (ℕ → ℕ) → ℕ → Issue → Type 0
IsSound rank target i = IsRanked rank i × (has_id target i ≡ true → is_merged i ≡ false)

module _ (rank : ℕ → ℕ) (source target : ℕ) (two : (source == target) ≡ false) where
  raise_source :
      (i : Issue)
      → IsSound rank target i
      → has_id source i ≡ true
      → IsRanked (raise rank source target) (merge_into target i)
  unfolding merge_into raise has_id
  raise_source i h e t m = ground arith

  raise_other :
      (i : Issue)
      → IsSound rank target i
      → has_id source i ≡ false
      → IsRanked (raise rank source target) i
  unfolding raise has_id is_merged
  raise_other i (h, free) e t m = ground (arith, h t m, free)

write_merge-IsForest :
    (source target : ℕ) (s t : Issue) (db : MergeDb)
    → HasUniqueIds db.issues.rows
    → IsMergeable source target s t db
    → IsForest db.issues.rows
    → IsForest (write_merge source target s db).issues.rows
unfolding write_merge update_issue
write_merge-IsForest source target s t db u m (rank, ranked) =
    let rows = db.issues.rows in
    let free = free_rows target rows t u m.target_row m.target_free in
    let sound = All-both (IsRanked rank) _ rows ranked free in
    let rank' = raise rank source target in
    let first =
      All-update_where (IsSound rank target) (IsRanked rank') (has_id source) (merge_into target)
        rows (λ i h e. raise_source rank source target m.two i h e)
        (λ i h e. raise_other rank source target m.two i h e) sound in
    (
      rank',
      All-update_where (IsRanked rank') (IsRanked rank') (has_id target) (add_count s.count) _
          (λ i h _. unfold add_count in h) (λ i h _. h) first,
    )

-- A merge of issues with distinct ids leaves a forest of merges a forest: a rank still grows along
-- every merge.
pub merge_issue-IsForest :
    (source target : ℕ) (db db' : MergeDb)
    → HasUniqueIds db.issues.rows
    → IsForest db.issues.rows
    → merge_issue source target db ≡ merged db'
    → IsForest db'.issues.rows
merge_issue-IsForest source target db db' u f e =
    let (s, t, m, w) = merge_issue_inversion source target db db' e in
    rw w (write_merge-IsForest source target s t db u m f)
