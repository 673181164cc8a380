-- ===== src/Issue/Occurrence/Table.antt =====
-- The table of issues as a map from (project, fingerprint) to rows.
use mathlib.Core.Option
use sightpane.Prelude.{
  ◌∙◌, ap, ◌≡◌, refl, ◌==◌, true, false, ◌&&◌, Option, none, some, arith, ℕ, find, if◌then◌else◌,
  find-update_where, find-update_where_ne, Bool-cases, inl, inr,
}
use sightpane.Prelude.Text.{Text, text_eq, text_eq_refl, text_eq_sound, text_eq_iff}
use sightpane.Issue.{Issue}
use sightpane.Issue.Decide.{Verdict}
use sightpane.Issue.Occurrence.{
  Issues, Occurrence, key_of, has_key, inserted, updated, verdict_of, upsert, find_issue,
  ingest_error,
}

-- The row that an error leaves under its own key.
abbrev pub row_after : Occurrence → ℕ → Option Issue → Issue
row_after o id none = inserted id o (verdict_of none o)
row_after o id (some prev) = updated prev o (verdict_of (some prev) o) prev

has_key-updated :
    (project : ℕ) (fp : Text) (prev : Issue) (o : Occurrence) (v : Verdict) (i : Issue)
    → has_key project fp (updated prev o v i) ≡ has_key project fp i
unfolding has_key updated
has_key-updated project fp prev o v i = refl

has_key-inserted :
    (project : ℕ) (fp : Text) (id : ℕ) (o : Occurrence) (v : Verdict)
    → has_key project fp (inserted id o v) ≡ (o.project_id == project && text_eq (key_of o) fp)
unfolding has_key inserted
has_key-inserted project fp id o v = refl

-- A row has one key.
has_key_ne :
    (p q : ℕ) (f g : Text) (i : Issue)
    → (p == q && text_eq f g) ≡ false
    → has_key p f i ≡ true
    → has_key q g i ≡ false
unfolding has_key
has_key_ne p q f g i h k =
    ground (arith, text_eq_iff i.fingerprint f, text_eq_iff i.fingerprint g, text_eq_iff f g)

has_key_self :
    (o : Occurrence) → (o.project_id == o.project_id && text_eq (key_of o) (key_of o)) ≡ true
has_key_self o = ground (arith, text_eq_refl (key_of o))

find-upsert_self :
    (o : Occurrence) (t : Issues) (prev : Option Issue)
    → find_issue o.project_id (key_of o) t.rows ≡ prev
    → find_issue o.project_id (key_of o) (upsert prev o t).0.rows
      ≡ some (row_after o t.next_id prev)
unfolding upsert find_issue find
find-upsert_self o t none h = rw (has_key-inserted, has_key_self o)
find-upsert_self o t (some prev) h =
    find-update_where (has_key o.project_id (key_of o)) (updated prev o (verdict_of (some prev) o))
      t.rows (λ i. has_key-updated o.project_id (key_of o) prev o (verdict_of (some prev) o) i)
    ∙ ap (Option.map (updated prev o (verdict_of (some prev) o))) h

find-upsert_ne :
    (o : Occurrence) (t : Issues) (prev : Option Issue) (project : ℕ) (fp : Text)
    → (o.project_id == project && text_eq (key_of o) fp) ≡ false
    → find_issue project fp (upsert prev o t).0.rows ≡ find_issue project fp t.rows
unfolding upsert find_issue find
find-upsert_ne o t none project fp h = rw (has_key-inserted, h)
find-upsert_ne o t (some prev) project fp h =
    find-update_where_ne (has_key project fp) (has_key o.project_id (key_of o))
      (updated prev o (verdict_of (some prev) o)) t.rows
      λ i k.
        let other = has_key_ne o.project_id project (key_of o) fp i h k in
        (other, has_key-updated project fp prev o (verdict_of (some prev) o) i ∙ other)

-- After an error the table holds, under the error's key, the row that was there updated, or a new
-- one; under every other key it holds what it held.
pub find_issue-ingest_error :
    (o : Occurrence) (t : Issues) (project : ℕ) (fp : Text)
    → find_issue project fp (ingest_error o t).0.rows ≡ (
        if o.project_id == project && text_eq (key_of o) fp
        then some (row_after o t.next_id (find_issue project fp t.rows))
        else find_issue project fp t.rows)
unfolding ingest_error
find_issue-ingest_error o t project fp =
    elim (Bool-cases (o.project_id == project && text_eq (key_of o) fp)) [
      | inl same ↦
          let e : o.project_id ≡ project = ground arith in
          let f : key_of o ≡ fp = text_eq_sound _ _ (ground arith) in
          rw (same, ← e, ← f) (find-upsert_self o t _ refl)
      | inr other ↦ rw other (find-upsert_ne o t _ project fp other)
    ]
