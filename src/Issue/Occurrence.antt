-- ===== src/Issue/Occurrence.antt =====
-- The "error" case of the ingest loop on the table of issues (internal/store/ingest.go): the row of
-- the fingerprint is inserted or updated, and an event may be raised.
pub mod Events
pub mod Table
use sightpane.Prelude.{
  ℕ, ◌+◌, ◌==◌, Bool, true, false, ◌&&◌, ◌||◌, Option, none, some, List, [], ◌∷◌, find,
  update_where, if◌then◌else◌,
}
use sightpane.Prelude.Int.{pos}
use sightpane.Prelude.Text.{Text, text_eq, is_empty}
use sightpane.Issue.{Issue, Status, is_resolved}
use sightpane.Issue.Rule.{FingerprintRule, regroup, ignores}
use sightpane.Issue.Decide.{Verdict, EventKind, decide}

-- The table, and the next value of its id sequence.
pub record Issues : Type 0 where
  pub rows : List Issue
  pub next_id : ℕ

-- An error as the loop hands it over: after scrubbing, fingerprinting and matching of the rules.
pub record Occurrence : Type 0 where
  pub project_id : ℕ
  pub fingerprint : Text
  pub title : Text
  pub exception : Text
  pub ts : ℕ
  pub release : Text
  pub rule : Option FingerprintRule

abbrev pub key_of : Occurrence → Text
key_of o = regroup o.rule o.fingerprint

-- WHERE project_id=$1 AND fingerprint=$2
unfoldable pub has_key : ℕ → Text → Issue → Bool
has_key project fp i = i.project_id == project && text_eq i.fingerprint fp

-- firstRel and lastRel, the parameters of the upsert.
first_rel : Option Issue → Text → Text
first_rel none release = release
first_rel (some prev) release = if is_empty prev.first_release then release else prev.first_release

last_rel : Option Issue → Text → Text
last_rel none release = release
last_rel (some prev) release = if is_empty release then prev.last_release else release

-- VALUES of the INSERT; the other columns have their defaults.
unfoldable pub inserted : ℕ → Occurrence → Verdict → Issue
unfolding first_rel last_rel is_resolved
inserted id o v = record {
  id = id;
  project_id = o.project_id;
  fingerprint = regroup o.rule o.fingerprint;
  title = o.title;
  exception = o.exception;
  first_seen = o.ts;
  last_seen = o.ts;
  count = 1;
  resolved = is_resolved v.target_status;
  status = v.target_status;
  assignee_user_id = none;
  snooze_until = none;
  snooze_count_threshold = pos 0;
  snooze_start_count = 0;
  merged_into = none;
  first_release = first_rel none o.release;
  last_release = last_rel none o.release;
  resolved_in_release = [];
}

-- ON CONFLICT(project_id, fingerprint) DO UPDATE SET; `prev` is the row that was read before.
unfoldable pub updated : Issue → Occurrence → Verdict → Issue → Issue
unfolding first_rel last_rel is_resolved
updated prev o v i = record i {
  last_seen = o.ts;
  count = i.count + 1;
  status = v.target_status;
  resolved = is_resolved v.target_status;
  first_release =
      if is_empty i.first_release then first_rel (some prev) o.release else i.first_release;
  last_release =
      if is_empty (last_rel (some prev) o.release)
      then i.last_release
      else last_rel (some prev) o.release;
}

-- RETURNING id, count, and the event.
pub record Outcome : Type 0 where
  pub issue_id : ℕ
  pub new_count : ℕ
  pub event_kind : Option EventKind

unfoldable pub verdict_of : Option Issue → Occurrence → Verdict
verdict_of prev o = decide (ignores o.rule) prev o.ts o.release

pub upsert : Option Issue → Occurrence → Issues → Issues × Outcome
upsert none o t =
    let v = verdict_of none o in
    (
      record { rows = inserted t.next_id o v ∷ t.rows; next_id = t.next_id + 1 },
      record { issue_id = t.next_id; new_count = 1; event_kind = v.event_kind },
    )
upsert (some prev) o t =
    let v = verdict_of (some prev) o in
    (
      record t { rows = update_where (has_key o.project_id (key_of o)) (updated prev o v) t.rows },
      record { issue_id = prev.id; new_count = prev.count + 1; event_kind = v.event_kind },
    )

unfoldable pub find_issue : ℕ → Text → List Issue → Option Issue
unfolding has_key
find_issue project fp rows = find (has_key project fp) rows

unfoldable pub ingest_error : Occurrence → Issues → Issues × Outcome
unfolding upsert
ingest_error o t = upsert (find_issue o.project_id (key_of o) t.rows) o t

-- The errors of one envelope, in the order of its items.
unfoldable pub ingest_errors : List Occurrence → Issues → Issues × List Outcome
ingest_errors [] t = (t, [])
ingest_errors (o ∷ os) t =
    let (t', out) = ingest_error o t in let (u, outs) = ingest_errors os t' in (u, out ∷ outs)
