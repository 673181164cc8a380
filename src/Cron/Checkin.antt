-- ===== src/Cron/Checkin.antt =====
-- RecordCronCheckin and GetCronStats (internal/store/crons.go).
use sightpane.Prelude.{
  ℕ, ◌+◌, ◌==◌, Bool, true, false, not, Option, none, some, List, [], ◌∷◌, ◌++◌, find, update_where,
  if◌then◌else◌,
}
use sightpane.Prelude.Text.{Text}
use sightpane.Cron.{
  CronStatus, ok, in_progress, error, missed, CronMonitor, CronCheckin, CronDb, Result, done,
  failed, not_found, refused_status, has_slug, has_monitor_id,
}
use sightpane.Cron.Schedule.{CronLib, compute_next_expected}

-- `monitor.NextExpectedAt = &next`, unless the schedule is refused.
unfoldable pub or_keep : Option ℕ → Option ℕ → Option ℕ
or_keep none old = old
or_keep (some next) old = some next

unfoldable pub ends_run : CronStatus → Bool
ends_run ok = true
ends_run error = true
ends_run in_progress = false
ends_run missed = false

-- CHECK (status IN ('in_progress', 'ok', 'error'))
unfoldable pub is_checkin_status : CronStatus → Bool
is_checkin_status ok = true
is_checkin_status error = true
is_checkin_status in_progress = true
is_checkin_status missed = false

module _ (lib : CronLib) where
  -- The monitor in memory after a check-in.
  unfoldable pub checked_in : ℕ → CronStatus → CronMonitor → CronMonitor
  unfolding or_keep ends_run
  checked_in now status m = record m {
    status = status;
    last_checkin_at = some now;
    next_expected_at =
        if ends_run status
        then or_keep (compute_next_expected lib m.schedule m.timezone now) m.next_expected_at
        else m.next_expected_at;
  }

  -- UPDATE … SET status, last_checkin_at, next_expected_at WHERE id=…
  unfoldable pub write_checkin : CronMonitor → CronMonitor → CronMonitor
  write_checkin m row = record row {
    status = m.status;
    last_checkin_at = m.last_checkin_at;
    next_expected_at = m.next_expected_at;
  }

  unfoldable pub record_found :
      ℕ
      → CronStatus
      → Option ℕ
      → Text
      → Option CronMonitor
      → CronDb
      → Result (CronDb × CronCheckin × CronMonitor)
  unfolding is_checkin_status
  record_found now status duration message none db = failed not_found
  record_found now status duration message (some m) db =
      let c : CronCheckin = record {
        monitor_id = m.id;
        project_id = m.project_id;
        status = status;
        duration_ms = duration;
        message = message;
        created_at = now;
      } in
      let m' = checked_in now status m in
      if not (is_checkin_status status)
      then failed refused_status
      else done (
        record db {
          monitors = update_where (has_monitor_id m.id) (write_checkin m') db.monitors;
          checkins = db.checkins ++ c ∷ [];
        },
        c,
        m',
      )

  unfoldable pub record_cron_checkin :
      ℕ
      → ℕ
      → Text
      → CronStatus
      → Option ℕ
      → Text
      → CronDb
      → Result (CronDb × CronCheckin × CronMonitor)
  unfolding record_found checked_in write_checkin
  record_cron_checkin now project slug status duration message db =
      record_found now status duration message (find (has_slug project slug) db.monitors) db

pub record CronStats : Type 0 where
  pub total_monitors : ℕ
  pub ok_count : ℕ
  pub in_progress_count : ℕ
  pub error_count : ℕ
  pub missed_count : ℕ

-- One row of the GROUP BY added to the counts.
abbrev count_status : CronStatus → CronStats → CronStats
count_status ok c = record c { total_monitors = c.total_monitors + 1; ok_count = c.ok_count + 1 }
count_status in_progress c = record c {
  total_monitors = c.total_monitors + 1;
  in_progress_count = c.in_progress_count + 1;
}
count_status error c = record c {
  total_monitors = c.total_monitors + 1;
  error_count = c.error_count + 1;
}
count_status missed c = record c {
  total_monitors = c.total_monitors + 1;
  missed_count = c.missed_count + 1;
}

count_monitors : ℕ → List CronMonitor → CronStats
count_monitors project [] = record {
  total_monitors = 0;
  ok_count = 0;
  in_progress_count = 0;
  error_count = 0;
  missed_count = 0;
}
count_monitors project (m ∷ ms) =
    let rest = count_monitors project ms in
    if m.project_id == project then count_status m.status rest else rest

unfoldable pub get_cron_stats : ℕ → CronDb → CronStats
unfolding count_monitors
get_cron_stats project db = count_monitors project db.monitors
