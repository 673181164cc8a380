-- ===== src/Uptime.antt =====
-- Uptime checks: the monitors and their checks (internal/store/uptime.go), one check of a monitor
-- (internal/uptime/checker.go) and a run over the monitors that are due (internal/uptime/runner.go).
pub mod Monitors
pub mod Checks
pub mod Runner
pub mod Told
mod Examples
use sightpane.Prelude.{ℕ, Bool, true, false, Option, List}
use sightpane.Prelude.Text.{Text}

-- A column NUMERIC(5, 2) of a percentage: `ratio a b` is float64(a) / float64(b) * 100 rounded.
pub record PercentLib : Type 1 where
  pub P : Type 0
  pub hundred : P
  pub ratio : ℕ → ℕ → P

pub data UptimeStatus : Type 0 where
  up degraded down : UptimeStatus

unfoldable pub is_same : UptimeStatus → UptimeStatus → Bool
is_same up up = true
is_same degraded degraded = true
is_same down down = true
is_same _ _ = false

-- Instants are nanoseconds.
pub record UptimeMonitor (lib : PercentLib) : Type 0 where
  pub id : ℕ
  pub project_id : ℕ
  pub name : Text
  pub url : Text
  pub method : Text
  pub headers : List (Text × Text)
  pub expected_status_code : ℕ
  pub interval_seconds : ℕ
  pub timeout_seconds : ℕ
  pub status : UptimeStatus
  pub ssl_check_enabled : Bool
  pub ssl_issuer : Text
  pub ssl_expires_at : Option ℕ
  pub last_checked_at : Option ℕ
  pub uptime_percentage : lib.P

pub record UptimeCheck : Type 0 where
  pub monitor_id : ℕ
  pub project_id : ℕ
  pub checked_at : ℕ
  pub status_code : Option ℕ
  pub response_time_ms : ℕ
  pub is_up : Bool
  pub error_message : Text

-- What NotifyUptimeIncident is called with.
pub record Notice : Type 0 where
  pub monitor_id : ℕ
  pub status : UptimeStatus
  pub error_message : Text

pub record UptimeDb (lib : PercentLib) : Type 0 where
  pub monitors : List (UptimeMonitor lib)
  pub checks : List UptimeCheck
  pub next_id : ℕ
  pub notices : List Notice
