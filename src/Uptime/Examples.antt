-- ===== src/Uptime/Examples.antt =====
-- Uptime checks at concrete inputs.
use sightpane.Prelude.{
  ℕ, ◌≡◌, refl, true, Option, if◌then◌else◌, false, none, some, [], ◌∷◌, arith, keep, find,
  update_where,
}
use sightpane.Prelude.Int.{pos}
use sightpane.Prelude.Text.{codes, text_eq, is_empty}
use sightpane.Uptime.{PercentLib, up, UptimeMonitor, UptimeDb, is_same}
use sightpane.Uptime.Monitors.{NewMonitor, done, create_uptime_monitor}
use sightpane.Uptime.Checks.{
  CheckResult, has_monitor_id, status_of, get_monitors_due_for_check, record_uptime_check,
}
use sightpane.Uptime.Runner.{check_monitor, Probe, Answers, confirm, run_once}
use sightpane.Uptime.Told.{IsTold}
use sightpane.Uptime.Told.Due.{run_once_none_due}
use sightpane.Uptime.Told.Reached.{here, then_, create, ask, run, Reach-IsTold}
use sightpane.Uptime.Told.Asked.{changes_status}

-- A percentage as its two counts.
abbrev counts : PercentLib
counts = record { P = ℕ × ℕ; hundred = (1, 1); ratio = λ a b. (a, b) }

abbrev failing : Probe
failing = record { status_code = 500; ms = 12; is_up = false; message = codes "500" }

abbrev outage : UptimeMonitor counts → Answers
outage m = record { first = failing; cancelled = false; retry = failing; ssl = none }

abbrev home_request : NewMonitor counts
home_request = record {
  project_id = 7;
  name = codes "Home";
  url = codes "https://example.com";
  method = [];
  headers = [];
  expected_status_code = pos 200;
  interval_seconds = pos 60;
  timeout_seconds = pos 0;
  ssl_check_enabled = false;
}

abbrev home : UptimeMonitor counts
home = record {
  id = 1;
  project_id = 7;
  name = codes "Home";
  url = codes "https://example.com";
  method = codes "GET";
  headers = [];
  expected_status_code = 200;
  interval_seconds = 60;
  timeout_seconds = 10;
  status = up;
  ssl_check_enabled = false;
  ssl_issuer = [];
  ssl_expires_at = none;
  last_checked_at = none;
  uptime_percentage = (1, 1);
}

abbrev no_monitors : UptimeDb counts
no_monitors = record { monitors = []; checks = []; next_id = 1; notices = [] }

abbrev one_monitor : UptimeDb counts
one_monitor = record { monitors = home ∷ []; checks = []; next_id = 2; notices = [] }

one_created : create_uptime_monitor counts home_request no_monitors ≡ done (one_monitor, home)
unfolding create_uptime_monitor is_empty text_eq
one_created = refl

abbrev healthy : Answers
healthy = record {
  first = record { status_code = 200; ms = 9; is_up = true; message = [] };
  cancelled = false;
  retry = failing;
  ssl = none;
}

-- The first check, which the handler starts.
abbrev first_check : Option (UptimeDb counts × CheckResult)
first_check = check_monitor counts 900 home healthy one_monitor

abbrev checked : UptimeDb counts
checked = elim first_check [ none ↦ one_monitor | some (db, res) ↦ db ]

abbrev fine : CheckResult
fine = record {
  status_code = some 200;
  response_time_ms = 9;
  is_up = true;
  error_message = [];
  ssl_issuer = [];
  ssl_expires_at = none;
}

first_checked : first_check ≡ some (checked, fine)
unfolding check_monitor record_uptime_check find
first_checked = refl

-- An outage after a first check that was fine is told.
Reach-IsTold_example :
    IsTold counts
      (if changes_status counts home fine one_monitor then 1 ∷ [] else [])
      (run_once counts 900_000_000_000 outage checked)
Reach-IsTold_example =
    Reach-IsTold counts {u = []} {a = no_monitors}
      (record { statuses = tt; ids = tt; below = tt; noticed = tt })
      (then_
        (then_ (then_ here (create home_request one_created)) (ask 900 home healthy first_checked))
        (run 900_000_000_000 outage))

unchanged : changes_status counts home fine one_monitor ≡ false
unfolding changes_status find is_same has_monitor_id status_of
unchanged = refl

answered : (m : UptimeMonitor counts) → (p : Probe) × (confirm (outage m) ≡ some p)
unfolding confirm
answered m = (_, refl)

run_once_none_due_example :
    get_monitors_due_for_check counts 900 (run_once counts 900 outage one_monitor) ≡ []
run_once_none_due_example =
    run_once_none_due counts 900 outage one_monitor (tt, tt) (omega arith, tt) answered

-- The tables after a check that a user asked for.
abbrev asked : UptimeDb counts
asked = elim (check_monitor counts 900 home (outage home) one_monitor) [
  | none ↦ one_monitor
  | some (db, res) ↦ db
]

-- The outage that it finds is never told: the next run sees no change.
outage_untold : (run_once counts 900_000_000_000 outage asked).notices ≡ []
unfolding run_once check_monitor get_monitors_due_for_check keep record_uptime_check find
    update_where is_same
outage_untold = refl
