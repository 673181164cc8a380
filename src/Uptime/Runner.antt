-- ===== src/Uptime/Runner.antt =====
-- CheckMonitor (internal/uptime/checker.go) and RunOnce (internal/uptime/runner.go), with a notifier.
-- One run takes one instant.
use sightpane.Prelude.{
  ℕ, Bool, true, false, Option, none, some, List, [], ◌∷◌, ◌++◌, ltb, if◌then◌else◌,
}
use sightpane.Prelude.Text.{Text, codes}
use sightpane.Uptime.{PercentLib, is_same, UptimeMonitor, UptimeDb}
use sightpane.Uptime.Checks.{
  CheckResult, status_of, record_uptime_check, get_monitors_due_for_check,
}

-- What ProbeOnce returns.
pub record Probe : Type 0 where
  pub status_code : ℕ
  pub ms : ℕ
  pub is_up : Bool
  pub message : Text

-- What the network answers for a monitor: the first probe, whether the context ends before the
-- second one, the second one, and the issuer and the end of the certificate.
pub record Answers : Type 0 where
  pub first : Probe
  pub cancelled : Bool
  pub retry : Probe
  pub ssl : Option (Text × ℕ)

-- The failure is confirmed by a second probe.
unfoldable pub confirm : Answers → Option Probe
confirm a =
    if a.first.is_up
    then some a.first
    else if a.cancelled
    then none
    else if a.retry.is_up
    then some (record a.retry { is_up = true; message = [] })
    else some (record a.retry {
      is_up = false;
      message = a.first.message ++ codes " (retry failed: " ++ a.retry.message ++ codes ")";
    })

unfoldable pub ssl_answer : Bool → Option (Text × ℕ) → Option (Text × ℕ)
ssl_answer true answer = answer
ssl_answer false answer = none

issuer_of : Option (Text × ℕ) → Text
issuer_of none = []
issuer_of (some (issuer, until)) = issuer

until_of : Option (Text × ℕ) → Option ℕ
until_of none = none
until_of (some (issuer, until)) = some until

unfoldable pub result_of : Probe → Option (Text × ℕ) → CheckResult
unfolding issuer_of until_of
result_of p ssl = record {
  status_code = if ltb 0 p.status_code then some p.status_code else none;
  response_time_ms = p.ms;
  is_up = p.is_up;
  error_message = p.message;
  ssl_issuer = issuer_of ssl;
  ssl_expires_at = until_of ssl;
}

module _ (lib : PercentLib) where
  unfoldable pub recorded :
      CheckResult → Option (UptimeDb lib) → Option (UptimeDb lib × CheckResult)
  recorded res none = none
  recorded res (some db) = some (db, res)

  unfoldable pub check_confirmed :
      ℕ
      → UptimeMonitor lib
      → Option Probe
      → Option (Text × ℕ)
      → UptimeDb lib
      → Option (UptimeDb lib × CheckResult)
  unfolding recorded result_of
  check_confirmed now m none ssl db = none
  check_confirmed now m (some p) ssl db =
      recorded (result_of p ssl)
        (record_uptime_check lib now m.id m.project_id (result_of p ssl) db)

  -- `none` is an error.
  unfoldable pub check_monitor :
      ℕ → UptimeMonitor lib → Answers → UptimeDb lib → Option (UptimeDb lib × CheckResult)
  unfolding check_confirmed confirm ssl_answer
  check_monitor now m a db =
      check_confirmed now m (confirm a) (ssl_answer m.ssl_check_enabled a.ssl) db

  -- An alert on a change of status.
  unfoldable pub notify_change : UptimeMonitor lib → CheckResult → UptimeDb lib → UptimeDb lib
  notify_change m res db = if is_same m.status (status_of res.is_up) then db else record db {
    notices =
        db.notices
        ++ record {
          monitor_id = m.id;
          status = status_of res.is_up;
          error_message = res.error_message;
        }
          ∷ [];
  }

  unfoldable pub after_check :
      UptimeMonitor lib → UptimeDb lib → Option (UptimeDb lib × CheckResult) → UptimeDb lib
  unfolding notify_change
  after_check m db none = db
  after_check m db (some (db', res)) = notify_change m res db'

  unfoldable pub run_each :
      ℕ → (UptimeMonitor lib → Answers) → List (UptimeMonitor lib) → UptimeDb lib → UptimeDb lib
  unfolding after_check
  run_each now net [] db = db
  run_each now net (m ∷ ms) db =
      run_each now net ms (after_check m db (check_monitor now m (net m) db))

  unfoldable pub run_once : ℕ → (UptimeMonitor lib → Answers) → UptimeDb lib → UptimeDb lib
  unfolding run_each
  run_once now net db = run_each now net (get_monitors_due_for_check lib now db) db
