-- ===== src/Uptime/Checks.antt =====
-- RecordUptimeCheck, GetMonitorsDueForCheck and GetUptimeStats (internal/store/uptime.go).
use sightpane.Prelude.{
  ℕ, ◌+◌, ◌*◌, ◌==◌, Bool, true, false, ◌&&◌, Option, none, some, List, [], ◌∷◌, ◌++◌, find, keep,
  update_where, length, ltb, leb, if◌then◌else◌,
}
use sightpane.Prelude.Text.{Text, is_empty}
use sightpane.Uptime.{PercentLib, UptimeStatus, up, down, UptimeMonitor, UptimeCheck, UptimeDb}

-- Nanoseconds.
abbrev pub second : ℕ
second = 1_000_000_000

abbrev pub thirty_days : ℕ
thirty_days = 2_592_000_000_000_000

unfoldable pub status_of : Bool → UptimeStatus
status_of true = up
status_of false = down

-- The result of one check, as it is recorded.
pub record CheckResult : Type 0 where
  pub status_code : Option ℕ
  pub response_time_ms : ℕ
  pub is_up : Bool
  pub error_message : Text
  pub ssl_issuer : Text
  pub ssl_expires_at : Option ℕ

module _ (lib : PercentLib) where
  unfoldable pub has_monitor_id : ℕ → UptimeMonitor lib → Bool
  has_monitor_id id m = m.id == id

  -- WHERE monitor_id = $1 AND checked_at >= NOW() - INTERVAL '30 days'
  recent : ℕ → ℕ → List UptimeCheck → List UptimeCheck
  recent now id checks =
      keep (λ c. c.monitor_id == id && leb now (c.checked_at + thirty_days)) checks

  unfoldable pub uptime_pct : ℕ → ℕ → List UptimeCheck → lib.P
  unfolding recent
  uptime_pct now id checks =
      let total = length (recent now id checks) in
      if ltb 0 total
      then lib.ratio (length (keep (λ c. c.is_up) (recent now id checks))) total
      else lib.hundred

  or_kept : Option ℕ → Option ℕ → Option ℕ
  or_kept none old = old
  or_kept (some t) old = some t

  unfoldable pub write_check : ℕ → CheckResult → lib.P → UptimeMonitor lib → UptimeMonitor lib
  unfolding or_kept status_of
  write_check now res pct m = record m {
    last_checked_at = some now;
    status = status_of res.is_up;
    ssl_issuer = if is_empty res.ssl_issuer then m.ssl_issuer else res.ssl_issuer;
    ssl_expires_at = or_kept res.ssl_expires_at m.ssl_expires_at;
    uptime_percentage = pct;
  }

  unfoldable pub check_row : ℕ → ℕ → ℕ → CheckResult → UptimeCheck
  check_row now id project res = record {
    monitor_id = id;
    project_id = project;
    checked_at = now;
    status_code = res.status_code;
    response_time_ms = res.response_time_ms;
    is_up = res.is_up;
    error_message = res.error_message;
  }

  unfoldable pub record_found :
      ℕ → ℕ → ℕ → CheckResult → Option (UptimeMonitor lib) → UptimeDb lib → Option (UptimeDb lib)
  unfolding check_row has_monitor_id write_check uptime_pct
  record_found now id project res none db = none
  record_found now id project res (some m) db =
      let checks = db.checks ++ check_row now id project res ∷ [] in
      some (record db {
        checks = checks;
        monitors =
            update_where (has_monitor_id id) (write_check now res (uptime_pct now id checks))
              db.monitors;
      })

  -- `none` where no monitor has the id, since a check refers to one.
  unfoldable pub record_uptime_check :
      ℕ → ℕ → ℕ → CheckResult → UptimeDb lib → Option (UptimeDb lib)
  unfolding record_found
  record_uptime_check now id project res db =
      record_found now id project res (find (has_monitor_id id) db.monitors) db

  unfoldable pub is_due : ℕ → UptimeMonitor lib → Bool
  is_due now m = elim m.last_checked_at [
    | none ↦ true
    | some t ↦ leb (t + m.interval_seconds * second) now
  ]

  unfoldable pub get_monitors_due_for_check : ℕ → UptimeDb lib → List (UptimeMonitor lib)
  unfolding is_due
  get_monitors_due_for_check now db = keep (is_due now) db.monitors
