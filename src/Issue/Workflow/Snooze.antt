-- ===== src/Issue/Workflow/Snooze.antt =====
-- An issue snoozed for a number of errors sleeps through all but the last of them, and wakes on it.
use mathlib.Core.Path.{subst}
use sightpane.Prelude.{
  ◌≡◌, refl, ◌∙◌, none, some, arith, ℕ, ◌+◌, ◌<◌, ◌≤◌, List, [], ◌∷◌, All, length,
  find-update_where_keep,
}
use sightpane.Prelude.Int.{pos}
use sightpane.Prelude.Text.{Text, text_eq_refl}
use sightpane.Issue.{Issue, snoozed, opened}
use sightpane.Issue.Decide.{decide, woken, regression}
use sightpane.Issue.Occurrence.{
  Issues, Occurrence, Outcome, key_of, has_key, updated, verdict_of, find_issue, ingest_error,
  ingest_errors,
}
use sightpane.Issue.Occurrence.Table.{find_issue-ingest_error}
use sightpane.Issue.Workflow.{has_id, snoozed_row, snooze_issue}

-- Under the key the table holds an issue with `count` errors, snoozed at `start` errors for `n` more.
pub record IsAsleep (project : ℕ) (fp : Text) (n start count : ℕ) (t : Issues) : Type 0 where
  pub issue : Issue
  pub found : find_issue project fp t.rows ≡ some issue
  pub sleeping : issue.status ≡ snoozed
  pub no_until : issue.snooze_until ≡ none
  pub for_errors : issue.snooze_count_threshold ≡ pos n
  pub since : issue.snooze_start_count ≡ start
  pub so_far : issue.count ≡ count

abbrev pub IsOn : ℕ → Text → Occurrence → Type 0
IsOn project fp o = (o.project_id ≡ project) × (key_of o ≡ fp)

abbrev pub IsQuiet : Outcome → Type 0
IsQuiet out = out.event_kind ≡ none

module _ (project : ℕ) (fp : Text) (n start : ℕ) where
  found_after :
      (o : Occurrence) (t : Issues) (i : Issue)
      → IsOn project fp o
      → find_issue project fp t.rows ≡ some i
      → find_issue project fp (ingest_error o t).0.rows
        ≡ some (updated i o (verdict_of (some i) o) i)
  found_after o t i (p, k) f =
      find_issue-ingest_error o t project fp ∙ rw (f, p, k, text_eq_refl fp) (ground arith)

  verdict_asleep :
      (o : Occurrence) (i : Issue) (count : ℕ)
      → i.status ≡ snoozed
      → i.snooze_until ≡ none
      → i.snooze_count_threshold ≡ pos n
      → i.snooze_start_count ≡ start
      → i.count ≡ count
      → count + 1 < n + start
      → verdict_of (some i) o ≡ record { target_status = snoozed; event_kind = none }
  unfolding verdict_of decide woken
  verdict_asleep o i count s u f w c lt = rw (s, u, f, w, c) (ground arith)

  verdict_wakes :
      (o : Occurrence) (i : Issue) (count : ℕ)
      → i.status ≡ snoozed
      → i.snooze_count_threshold ≡ pos n
      → i.snooze_start_count ≡ start
      → i.count ≡ count
      → 0 < n
      → n + start ≤ count + 1
      → verdict_of (some i) o ≡ record { target_status = opened; event_kind = some regression }
  unfolding verdict_of decide woken
  verdict_wakes o i count s f w c p le = rw (s, f, w, c) (ground arith)

  outcome_of :
      (o : Occurrence) (t : Issues) (i : Issue)
      → IsOn project fp o
      → find_issue project fp t.rows ≡ some i
      → (ingest_error o t).1.event_kind ≡ (verdict_of (some i) o).event_kind
  unfolding ingest_error
  outcome_of o t i (p, k) f = rw (p, k, f) refl

  IsAsleep-ingest_error :
      (o : Occurrence) (t : Issues) (count : ℕ)
      → IsOn project fp o
      → count + 1 < n + start
      → IsAsleep project fp n start count t
      → IsAsleep project fp n start (count + 1) (ingest_error o t).0 × IsQuiet (ingest_error o t).1
  unfolding updated
  IsAsleep-ingest_error o t count on lt a =
      let i = a.issue in
      let v = verdict_asleep o i count a.sleeping a.no_until a.for_errors a.since a.so_far lt in
      (
        record {
          issue = updated i o (verdict_of (some i) o) i;
          found = found_after o t i on a.found;
          sleeping = rw v refl;
          no_until = a.no_until;
          for_errors = a.for_errors;
          since = a.since;
          so_far = rw a.so_far refl;
        },
        outcome_of o t i on a.found ∙ rw v refl,
      )

  IsAsleep-ingest_errors :
      (os : List Occurrence) (t : Issues) (count : ℕ)
      → All (IsOn project fp) os
      → count + length os < n + start
      → IsAsleep project fp n start count t
      → IsAsleep project fp n start (count + length os) (ingest_errors os t).0
        × All IsQuiet (ingest_errors os t).1
  unfolding ingest_errors
  IsAsleep-ingest_errors [] t count on lt a =
      (subst (λ c. IsAsleep project fp n start c t) (omega arith) a, tt)
  IsAsleep-ingest_errors (o ∷ os) t count (on, ons) lt a =
      let (a', q) = IsAsleep-ingest_error o t count on (omega arith) a in
      let (b, qs) =
        IsAsleep-ingest_errors os (ingest_error o t).0 (count + 1) ons (omega arith) a' in
      (
        subst (λ c. IsAsleep project fp n start c (ingest_errors os (ingest_error o t).0).0)
            (omega arith) b,
        (q, qs),
      )

  wakes :
      (o : Occurrence) (t : Issues) (count : ℕ)
      → IsOn project fp o
      → 0 < n
      → n + start ≤ count + 1
      → IsAsleep project fp n start count t
      → (ingest_error o t).1.event_kind ≡ some regression
  wakes o t count on p le a =
      outcome_of o t a.issue on a.found
      ∙ rw (verdict_wakes o a.issue count a.sleeping a.for_errors a.since a.so_far p le) refl

IsAsleep-snooze_issue :
    (project : ℕ) (fp : Text) (n : ℕ) (t : Issues) (i : Issue)
    → find_issue project fp t.rows ≡ some i
    → IsAsleep project fp n i.count i.count (snooze_issue i.id none (pos n) t)
unfolding snooze_issue find_issue
IsAsleep-snooze_issue project fp n t i f = record {
  issue = snoozed_row none (pos n) i;
  found =
      find-update_where_keep (has_key project fp) (has_id i.id) (snoozed_row none (pos n)) t.rows
        (λ j. refl)
      ∙ rw f (ground arith);
  sleeping = refl;
  no_until = refl;
  for_errors = refl;
  since = refl;
  so_far = refl;
}

-- An issue snoozed for n > 0 errors with no deadline raises no event and stays snoozed on the next
-- n - 1 errors of its key, and the n-th raises a regression.
pub snooze_lasts :
    (project : ℕ) (fp : Text) (n : ℕ) (t : Issues) (i : Issue) (os : List Occurrence)
    (o : Occurrence)
    → find_issue project fp t.rows ≡ some i
    → All (IsOn project fp) os
    → IsOn project fp o
    → length os + 1 ≡ n
    → All IsQuiet (ingest_errors os (snooze_issue i.id none (pos n) t)).1
      × IsAsleep project fp n i.count
          (i.count + length os)
          (ingest_errors os (snooze_issue i.id none (pos n) t)).0
      × ((ingest_error o (ingest_errors os (snooze_issue i.id none (pos n) t)).0).1.event_kind
          ≡ some regression)
snooze_lasts project fp n t i os o f ons on e =
    let a = IsAsleep-snooze_issue project fp n t i f in
    let (b, quiet) =
      IsAsleep-ingest_errors project fp n i.count os (snooze_issue i.id none (pos n) t) i.count ons
        (omega arith) a in
    (
      quiet,
      b,
      wakes project fp n i.count o _ (i.count + length os) on (omega arith) (omega arith) b,
    )
