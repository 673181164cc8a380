-- ===== src/Issue/Workflow/Flag.antt =====
-- The column `resolved` agrees with the column `status`, through every operation but a merge.
use mathlib.Core.Path.{subst}
use sightpane.Prelude.{
  ◌≡◌, refl, Bool, true, false, Option, none, some, ℕ, All, All-update_where, map, find,
}
use sightpane.Prelude.Int.{ℤ}
use sightpane.Prelude.Text.{Text}
use sightpane.Issue.{Issue, Status, is_resolved}
use sightpane.Issue.Occurrence.{
  Issues, Occurrence, inserted, updated, verdict_of, find_issue, ingest_error, key_of, upsert,
}
use sightpane.Issue.Workflow.{
  changed, has_id, update_issue, assign_issue, read_status, set_read_status, with_status, found_or,
  set_issue_status, snoozed_row, snooze_issue, resolved_row, set_issue_resolved_with_release,
}

abbrev pub IsConsistent : Issue → Type 0
IsConsistent i = i.resolved ≡ is_resolved i.status

abbrev pub IsConsistentTable : Issues → Type 0
IsConsistentTable t = All IsConsistent t.rows

-- The operations on issues: an ingested error, and what a user does to one issue.
pub data Step (lower : ℕ → ℕ) : Issues → Issues → Type 0 where
  error : {t : Issues} (o : Occurrence) → Step lower t (ingest_error o t).0
  assign : {t : Issues} (id : ℕ) (user : Option ℕ) → Step lower t (assign_issue id user t)
  set_status :
      {t u : Issues} (id : ℕ) (s : Text)
      → set_issue_status lower id s t ≡ changed u
      → Step lower t u
  snooze :
      {t : Issues} (id : ℕ) (until : Option ℕ) (n : ℤ) → Step lower t (snooze_issue id until n t)
  resolve :
      {t u : Issues} (id : ℕ) (to : Bool) (release : Text)
      → set_issue_resolved_with_release id to release t ≡ changed u
      → Step lower t u

pub data Reach (lower : ℕ → ℕ) (s : Issues) : Issues → Type 0 where
  here : Reach lower s s
  next : {t u : Issues} → Reach lower s t → Step lower t u → Reach lower s u

updated-IsConsistent :
    (o : Occurrence) (prev i : Issue) → IsConsistent (updated prev o (verdict_of (some prev) o) i)
unfolding updated
updated-IsConsistent o prev i = refl

ingest_error-IsConsistentTable :
    (o : Occurrence) (t : Issues) → IsConsistentTable t → IsConsistentTable (ingest_error o t).0
unfolding ingest_error
ingest_error-IsConsistentTable o t h = go (find_issue o.project_id (key_of o) t.rows)
  where
    go : (prev : Option Issue) → IsConsistentTable (upsert prev o t).0
    go none = (unfold inserted in refl, h)
    go (some prev) =
        All-update_where IsConsistent IsConsistent _ _ t.rows
          (λ i c _. updated-IsConsistent o prev i) (λ i c _. c) h

update_issue-IsConsistentTable :
    (id : ℕ) (f : Issue → Issue) (t : Issues)
    → ((i : Issue) → IsConsistent i → IsConsistent (f i))
    → IsConsistentTable t
    → IsConsistentTable (update_issue id f t)
unfolding update_issue
update_issue-IsConsistentTable id f t h a =
    All-update_where IsConsistent IsConsistent _ f t.rows (λ i c _. h i c) (λ i c _. c) a

set_read_status-IsConsistentTable :
    (id : ℕ) (s : Option Status) (t u : Issues)
    → set_read_status id s t ≡ changed u
    → IsConsistentTable t
    → IsConsistentTable u
unfolding set_read_status with_status
set_read_status-IsConsistentTable id none t u e h = cc
set_read_status-IsConsistentTable id (some s) t u e h =
    let k = update_issue-IsConsistentTable id (with_status s) t (λ i c. refl) h in
    let same : update_issue id (with_status s) t ≡ u = cc in subst IsConsistentTable same k

resolved_row-IsConsistent :
    (to : Bool) (release : Text) (i : Issue) → IsConsistent (resolved_row to release i)
unfolding resolved_row is_resolved
resolved_row-IsConsistent true release i = refl
resolved_row-IsConsistent false release i = refl

found_or-IsConsistentTable :
    (o : Option Issue) (t u : Issues)
    → found_or o t ≡ changed u
    → IsConsistentTable t
    → IsConsistentTable u
unfolding found_or
found_or-IsConsistentTable none t u e h = cc
found_or-IsConsistentTable (some i) t u e h =
    let same : t ≡ u = cc in subst IsConsistentTable same h

Step-IsConsistentTable :
    {lower : ℕ → ℕ} {t u : Issues} → Step lower t u → IsConsistentTable t → IsConsistentTable u
unfolding assign_issue set_issue_status snooze_issue set_issue_resolved_with_release is_resolved
Step-IsConsistentTable {t = t} (error o) h = ingest_error-IsConsistentTable o t h
Step-IsConsistentTable {t = t} (assign id user) h =
    update_issue-IsConsistentTable id _ t (λ i c. c) h
Step-IsConsistentTable {lower} {t = t} {u = u} (set_status id s e) h =
    set_read_status-IsConsistentTable id (read_status (map lower s)) t u e h
Step-IsConsistentTable {t = t} (snooze id until n) h =
    update_issue-IsConsistentTable id (snoozed_row until n) t (λ i c. refl) h
Step-IsConsistentTable {t = t} {u = u} (resolve id to release e) h =
    found_or-IsConsistentTable (find (has_id id) t.rows) _ u e
      (update_issue-IsConsistentTable id _ t (λ i c. resolved_row-IsConsistent to release i) h)

-- From a table where `resolved` is set exactly on the rows whose status is resolved, whatever errors
-- are ingested and whatever users assign, snooze, resolve or set, it stays so.
pub Reach-IsConsistentTable :
    {lower : ℕ → ℕ} {t u : Issues} → IsConsistentTable t → Reach lower t u → IsConsistentTable u
Reach-IsConsistentTable h here = h
Reach-IsConsistentTable h (next r s) = Step-IsConsistentTable s (Reach-IsConsistentTable h r)
