-- ===== src/Cron/Deadline.antt =====
-- EvaluateCronDeadlines (internal/store/crons.go): two passes over the monitors, the second one over
-- what the first one wrote.
pub mod OnePass
pub mod Again
use sightpane.Prelude.{
  ℕ, suc, ◌+◌, ◌*◌, ◌==◌, Bool, true, false, ◌&&◌, not, Option, none, some, List, [], ◌∷◌, ◌++◌,
  map, keep, update_where, ltb, if◌then◌else◌,
}
use sightpane.Prelude.Int.{ℤ, pos, negsuc}
use sightpane.Prelude.Text.{codes, Text}
use sightpane.Cron.{
  CronStatus, ok, in_progress, error, missed, CronMonitor, CronCheckin, CronDb, has_monitor_id,
}
use sightpane.Cron.Schedule.{CronLib, compute_next_expected}
use sightpane.Cron.Checkin.{or_keep}

-- Nanoseconds.
abbrev pub minute : ℕ
minute = 60_000_000_000

-- now > t + minutes * INTERVAL '1 minute'
unfoldable pub is_past : ℕ → ℕ → ℤ → Bool
is_past now t (pos n) = ltb (t + n * minute) now
is_past now t (negsuc n) = ltb t (now + suc n * minute)

unfoldable pub is_missed : CronStatus → Bool
is_missed missed = true
is_missed ok = false
is_missed in_progress = false
is_missed error = false

unfoldable pub is_in_progress : CronStatus → Bool
is_in_progress in_progress = true
is_in_progress ok = false
is_in_progress error = false
is_in_progress missed = false

past_opt : ℕ → Option ℕ → ℤ → Bool
past_opt now none minutes = false
past_opt now (some t) minutes = is_past now t minutes

-- The WHERE clauses of the two queries.
unfoldable pub is_overdue : ℕ → CronMonitor → Bool
unfolding past_opt
is_overdue now m =
    not (is_missed m.status) && past_opt now m.next_expected_at m.grace_period_minutes

unfoldable pub is_timed_out : ℕ → CronMonitor → Bool
unfolding past_opt
is_timed_out now m = is_in_progress m.status && past_opt now m.last_checkin_at m.max_runtime_minutes

-- SET status, next_expected_at.
unfoldable pub write_row : CronMonitor → CronMonitor → CronMonitor
write_row m row = record row { status = m.status; next_expected_at = m.next_expected_at }

-- UPDATE … WHERE id=… for each row of a query.
unfoldable pub write_back : List CronMonitor → List CronMonitor → List CronMonitor
write_back [] rows = rows
write_back (m ∷ ms) rows = write_back ms (update_where (has_monitor_id m.id) (write_row m) rows)

module _ (lib : CronLib) (now : ℕ) where
  -- The monitor in memory, which is also what is written back.
  unfoldable pub mark : CronStatus → CronMonitor → CronMonitor
  unfolding or_keep
  mark status m = record m {
    status = status;
    next_expected_at =
        or_keep (compute_next_expected lib m.schedule m.timezone now) m.next_expected_at;
  }

  server_checkin : Text → CronMonitor → CronCheckin
  server_checkin message m = record {
    monitor_id = m.id;
    project_id = m.project_id;
    status = error;
    duration_ms = none;
    message = message;
    created_at = now;
  }

  -- One pass: the rows that the query returns are marked, written back, logged and alerted.
  unfoldable pub pass :
      (CronMonitor → Bool) → CronStatus → Text → CronDb → CronDb × List CronMonitor
  unfolding server_checkin
  pass test status message db =
      let marked = map (mark status) (keep test db.monitors) in
      (
        record db {
          monitors = write_back marked db.monitors;
          checkins = db.checkins ++ map (server_checkin message) marked;
        },
        marked,
      )

  unfoldable pub evaluate_cron_deadlines : CronDb → CronDb × List CronMonitor
  unfolding pass mark is_overdue is_timed_out write_back write_row
  evaluate_cron_deadlines db =
      let (db1, missed_monitors) =
        pass (is_overdue now) missed (codes "Missed check-in deadline") db in
      let (db2, timed_out) = pass (is_timed_out now) error (codes "Job execution timed out") db1 in
      (db2, missed_monitors ++ timed_out)
