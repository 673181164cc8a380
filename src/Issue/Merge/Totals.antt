-- ===== src/Issue/Merge/Totals.antt =====
-- A merge loses no error.
use sightpane.Prelude.{
  ◌≡◌, refl, ◌∙◌, ◌==◌, Bool, true, false, some, arith, ℕ, ◌+◌, List, [], ◌∷◌, All, find,
  update_where, if◌then◌else◌, find-update_where_ne, Bool-cases, inl, inr,
}
use sightpane.Issue.{Issue}
use sightpane.Issue.Workflow.{has_id, update_issue}
use sightpane.Issue.Merge.{
  MergeDb, merged, is_merged, merge_into, add_count, write_merge, merge_issue,
}
use sightpane.Issue.Merge.Inversion.{IsMergeable, merge_issue_inversion}

live : Issue → ℕ
live i = if is_merged i then 0 else i.count

-- The errors counted on the issues that are not merged into another.
pub live_total : List Issue → ℕ
live_total [] = 0
live_total (i ∷ rows) = live i + live_total rows

-- The ids are distinct: a primary key.
abbrev pub HasUniqueIds : List Issue → Type 0
HasUniqueIds [] = Unit
HasUniqueIds (i ∷ rows) = All (λ j. has_id i.id j ≡ false) rows × HasUniqueIds rows

pub has_id_same : (a : ℕ) (i : Issue) → has_id a i ≡ true → a ≡ i.id
unfolding has_id
has_id_same a i h = ground arith

update_where_none :
    (p : Issue → Bool) (f : Issue → Issue) (rows : List Issue)
    → All (λ j. p j ≡ false) rows
    → update_where p f rows ≡ rows
unfolding update_where
update_where_none p f [] h = refl
update_where_none p f (i ∷ rows) (h, hs) = rw (h, update_where_none p f rows hs)

live_total-update_where :
    (a : ℕ) (f : Issue → Issue) (rows : List Issue) (x : Issue)
    → HasUniqueIds rows
    → find (has_id a) rows ≡ some x
    → live_total (update_where (has_id a) f rows) + live x ≡ live_total rows + live (f x)
unfolding live_total update_where find
live_total-update_where a f [] x u h = cc
live_total-update_where a f (i ∷ rows) x (u, us) h = elim (Bool-cases (has_id a i)) [
  | inl e ↦
      let same : i ≡ x = ground arith in
      let rest : update_where (has_id a) f rows ≡ rows =
        rw (has_id_same a i e) (update_where_none _ f rows u) in
      rw (e, rest, same) (omega arith)
  | inr e ↦ rw e (omega (arith, live_total-update_where a f rows x us (rw e at h)))
]

module _ (a : ℕ) (f : Issue → Issue) (keeps_id : (i : Issue) → (f i).id ≡ i.id) where
  other_ids :
      (b : ℕ) (rows : List Issue)
      → All (λ j. has_id b j ≡ false) rows
      → All (λ j. has_id b j ≡ false) (update_where (has_id a) f rows)
  unfolding update_where
  other_ids b [] u = tt
  other_ids b (i ∷ rows) (u, us) = elim (Bool-cases (has_id a i)) [
    | inl e ↦ rw e (unfold has_id in rw (keeps_id i) (unfold has_id in u), other_ids b rows us)
    | inr e ↦ rw e (u, other_ids b rows us)
  ]

  update_where-HasUniqueIds :
      (rows : List Issue) → HasUniqueIds rows → HasUniqueIds (update_where (has_id a) f rows)
  unfolding update_where
  update_where-HasUniqueIds [] u = tt
  update_where-HasUniqueIds (i ∷ rows) (u, us) = elim (Bool-cases (has_id a i)) [
    | inl e ↦ rw (e, keeps_id i) (other_ids i.id rows u, update_where-HasUniqueIds rows us)
    | inr e ↦ rw e (other_ids i.id rows u, update_where-HasUniqueIds rows us)
  ]

-- The row of the target is not the row of the source.
target_after_source :
    (source target : ℕ) (rows : List Issue) {t : Issue}
    → (source == target) ≡ false
    → find (has_id target) rows ≡ some t
    → find (has_id target) (update_where (has_id source) (merge_into target) rows) ≡ some t
unfolding has_id merge_into
target_after_source source target rows h f =
    find-update_where_ne (has_id target) (has_id source) (merge_into target) rows
      (λ i k. (ground arith, ground arith))
    ∙ f

live-merge_into : (target : ℕ) (s : Issue) → is_merged s ≡ false → live (merge_into target s) ≡ 0
unfolding live merge_into is_merged
live-merge_into target s h = refl

live-add_count : (n : ℕ) (t : Issue) → is_merged t ≡ false → live (add_count n t) ≡ live t + n
unfolding live add_count is_merged
live-add_count n t h = ground arith

live_free : (s : Issue) → is_merged s ≡ false → live s ≡ s.count
unfolding live
live_free s h = ground arith

write_merge_total :
    (source target : ℕ) (s t : Issue) (db : MergeDb)
    → HasUniqueIds db.issues.rows
    → IsMergeable source target s t db
    → live_total (write_merge source target s db).issues.rows ≡ live_total db.issues.rows
unfolding write_merge update_issue
write_merge_total source target s t db u m =
    let rows = db.issues.rows in
    let rows1 = update_where (has_id source) (merge_into target) rows in
    let first = live_total-update_where source (merge_into target) rows s u m.source_row in
    let second =
      live_total-update_where target (add_count s.count) rows1 t
        (update_where-HasUniqueIds source (merge_into target) (λ i. unfold merge_into in refl) rows
          u)
        (target_after_source source target rows m.two m.target_row) in
    omega (
      arith,
      first,
      second,
      live-merge_into target s m.source_free,
      live_free s m.source_free,
      live-add_count s.count t m.target_free,
    )

-- A merge of issues with distinct ids keeps the number of errors that are counted on the issues not
-- merged into another.
pub live_total-merge_issue :
    (source target : ℕ) (db db' : MergeDb)
    → HasUniqueIds db.issues.rows
    → merge_issue source target db ≡ merged db'
    → live_total db'.issues.rows ≡ live_total db.issues.rows
live_total-merge_issue source target db db' u e =
    let (s, t, m, w) = merge_issue_inversion source target db db' e in
    rw w (write_merge_total source target s t db u m)
