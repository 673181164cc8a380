-- ===== src/Cron/Examples.antt =====
-- Cron monitors at concrete inputs.
use sightpane.Prelude.{
  ◌+◌, ◌≡◌, refl, some, none, [], ◌∷◌, ◌++◌, map, keep, not, ◌&&◌, arith, update_where,
}
use sightpane.Prelude.Int.{pos, negsuc}
use sightpane.Prelude.Text.{codes}
use sightpane.Cron.{
  CronMonitor, CronDb, ok, in_progress, error, missed, done, has_monitor_id, create_cron_monitor,
  delete_cron_monitor,
}
use sightpane.Cron.Schedule.{CronLib, NextIsLater}
use sightpane.Cron.Deadline.{minute, evaluate_cron_deadlines, mark, is_overdue, is_timed_out}
use sightpane.Cron.Deadline.OnePass.{HasUniqueIds, evaluate_row, evaluate-one_pass}
use sightpane.Cron.Deadline.Again.{evaluate_again}
use sightpane.Cron.Rows.{IsWellFormed}
use sightpane.Cron.Positive.{Step, create, evaluate, here, then_, Reach-IsWellFormed}

-- Every schedule fires an hour later.
abbrev hourly : CronLib
hourly = record {
  Schedule = Unit;
  Location = Unit;
  parse = λ text. some tt;
  load = λ name. none;
  utc = tt;
  next = λ s l t. t + 3_600_000_000_000;
}

hourly-NextIsLater : NextIsLater hourly
hourly-NextIsLater = record { later = λ s l t. omega arith }

abbrev backup : CronMonitor
backup = record {
  id = 1;
  project_id = 7;
  slug = codes "backup";
  name = codes "Backup";
  schedule = codes "0 * * * *";
  timezone = codes "UTC";
  grace_period_minutes = pos 5;
  max_runtime_minutes = pos 60;
  status = ok;
  last_checkin_at = none;
  next_expected_at = some 0;
}

abbrev report : CronMonitor
report = record backup {
  id = 2;
  slug = codes "report";
  status = in_progress;
  last_checkin_at = some 0;
  next_expected_at = none;
}

abbrev two_monitors : CronDb
two_monitors = record { monitors = backup ∷ report ∷ []; checkins = []; next_id = 3 }

two_unique : HasUniqueIds two_monitors.monitors
two_unique = ((refl, tt), (tt, tt))

-- Two hours later the one is missed and the other has timed out.
two_evaluated :
    map (λ m. m.status) (evaluate_cron_deadlines hourly 7_200_000_000_000 two_monitors).0.monitors
    ≡ missed ∷ error ∷ []
unfolding evaluate_cron_deadlines keep update_where has_monitor_id sightpane.Cron.Deadline.is_missed
    sightpane.Cron.Deadline.is_past sightpane.Cron.Deadline.is_in_progress
    sightpane.Cron.Schedule.compute_next_expected
two_evaluated = refl

evaluate-one_pass_example :
    ((evaluate_cron_deadlines hourly 7_200_000_000_000 two_monitors).0.monitors
      ≡ map (evaluate_row hourly 7_200_000_000_000) two_monitors.monitors)
    × ((evaluate_cron_deadlines hourly 7_200_000_000_000 two_monitors).1
        ≡ map
            (mark hourly 7_200_000_000_000 missed)
            (keep (is_overdue 7_200_000_000_000) two_monitors.monitors)
          ++ map (mark hourly 7_200_000_000_000 error) (
              keep
                (λ m. not (is_overdue 7_200_000_000_000 m) && is_timed_out 7_200_000_000_000 m)
                two_monitors.monitors))
evaluate-one_pass_example = evaluate-one_pass hourly 7_200_000_000_000 two_monitors two_unique

evaluate_again_example :
    ((evaluate_cron_deadlines hourly 7_200_000_000_000
        (evaluate_cron_deadlines hourly 7_200_000_000_000 two_monitors).0).0.monitors
      ≡ (evaluate_cron_deadlines hourly 7_200_000_000_000 two_monitors).0.monitors)
    × ((evaluate_cron_deadlines hourly 7_200_000_000_000
          (evaluate_cron_deadlines hourly 7_200_000_000_000 two_monitors).0).1
        ≡ [])
evaluate_again_example =
    evaluate_again hourly 7_200_000_000_000 two_monitors hourly-NextIsLater two_unique
      ((5, refl), ((5, refl), tt))

abbrev no_monitors : CronDb
no_monitors = record { monitors = []; checkins = []; next_id = 1 }

-- A monitor asked for with no periods.
abbrev asked : CronMonitor
asked = record backup { grace_period_minutes = pos 0; max_runtime_minutes = negsuc 3 }

abbrev created : CronMonitor
created = record backup {
  max_runtime_minutes = pos 60;
  grace_period_minutes = pos 15;
  next_expected_at = some 3_600_000_000_000;
}

abbrev created_reply : CronMonitor
created_reply = record created { id = 1 }

abbrev one_monitor : CronDb
one_monitor = record { monitors = created ∷ []; checkins = []; next_id = 2 }

created_run : create_cron_monitor hourly 0 asked no_monitors ≡ done (one_monitor, created_reply)
unfolding create_cron_monitor sightpane.Cron.at_least_one
    sightpane.Cron.Schedule.compute_next_expected sightpane.Prelude.find
    sightpane.Prelude.Text.is_empty
created_run = refl

created_step : Step hourly no_monitors one_monitor
created_step = create {m' = created_reply} 0 asked created_run

Reach-IsWellFormed_example :
    IsWellFormed (evaluate_cron_deadlines hourly 7_200_000_000_000 one_monitor).0
Reach-IsWellFormed_example =
    Reach-IsWellFormed {lib = hourly} {a = no_monitors} (tt, tt, tt)
      (then_ (then_ here created_step) (evaluate 7_200_000_000_000))
