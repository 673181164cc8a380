-- ===== src/Cron.antt =====
-- Cron monitors (internal/store/crons.go): heartbeats of scheduled jobs and their deadlines.
-- Instants are nanoseconds. The database is taken to answer; what it answers is modelled.
pub mod Schedule
pub mod Checkin
pub mod Deadline
pub mod Rows
pub mod Positive
mod Examples
use sightpane.Prelude.{
  ℕ, ◌+◌, ◌*◌, ◌==◌, Bool, true, false, ◌&&◌, ◌||◌, Option, none, some, List, [], ◌∷◌, ◌++◌, find,
  keep, update_where, if◌then◌else◌, not,
}
use sightpane.Prelude.Int.{ℤ, pos, negsuc}
use sightpane.Prelude.Text.{Text, codes, text_eq, is_empty}
use sightpane.Cron.Schedule.{CronLib, compute_next_expected}

pub data CronStatus : Type 0 where
  ok in_progress error missed : CronStatus

pub record CronMonitor : Type 0 where
  pub id : ℕ
  pub project_id : ℕ
  pub slug : Text
  pub name : Text
  pub schedule : Text
  pub timezone : Text
  pub grace_period_minutes : ℤ
  pub max_runtime_minutes : ℤ
  pub status : CronStatus
  pub last_checkin_at : Option ℕ
  pub next_expected_at : Option ℕ

-- A duration is left out by the check-ins that the server writes itself.
pub record CronCheckin : Type 0 where
  pub monitor_id : ℕ
  pub project_id : ℕ
  pub status : CronStatus
  pub duration_ms : Option ℕ
  pub message : Text
  pub created_at : ℕ

pub record CronDb : Type 0 where
  pub monitors : List CronMonitor
  pub checkins : List CronCheckin
  pub next_id : ℕ

pub data CronError : Type 0 where
  invalid_schedule not_found duplicate_slug refused_status : CronError

pub data Result (A : Type 0) : Type 0 where
  done : A → Result A
  failed : CronError → Result A

-- The defaults that CreateCronMonitor and UpdateCronMonitor put in.
unfoldable pub at_least_one : ℤ → ℤ → ℤ
at_least_one default (pos n) = if n == 0 then default else pos n
at_least_one default (negsuc n) = default

unfoldable pub with_defaults : CronMonitor → CronMonitor
unfolding at_least_one
with_defaults m = record m {
  grace_period_minutes = at_least_one (pos 15) m.grace_period_minutes;
  max_runtime_minutes = at_least_one (pos 60) m.max_runtime_minutes;
  timezone = if is_empty m.timezone then codes "UTC" else m.timezone;
}

unfoldable pub has_slug : ℕ → Text → CronMonitor → Bool
has_slug project slug m = m.project_id == project && text_eq m.slug slug

-- WHERE project_id=… AND id=…
unfoldable pub is_monitor : ℕ → ℕ → CronMonitor → Bool
is_monitor project id m = m.project_id == project && m.id == id

unfoldable pub has_monitor_id : ℕ → CronMonitor → Bool
has_monitor_id id m = m.id == id

module _ (lib : CronLib) where
  -- INSERT; UNIQUE(project_id, slug) refuses a second monitor.
  insert_monitor : CronMonitor → Option CronMonitor → CronDb → Result (CronDb × CronMonitor)
  insert_monitor m (some other) db = failed duplicate_slug
  insert_monitor m none db =
      let row = record m { id = db.next_id; last_checkin_at = none } in
      done (
        record db { monitors = db.monitors ++ row ∷ []; next_id = db.next_id + 1 },
        record m { id = db.next_id },
      )

  create_at : CronMonitor → Option ℕ → CronDb → Result (CronDb × CronMonitor)
  create_at m none db = failed invalid_schedule
  create_at m (some next) db =
      insert_monitor (record m { next_expected_at = some next })
        (find (has_slug m.project_id m.slug) db.monitors) db

  unfoldable pub create_cron_monitor : ℕ → CronMonitor → CronDb → Result (CronDb × CronMonitor)
  unfolding insert_monitor create_at with_defaults
  create_cron_monitor now m db =
      let m' = with_defaults m in
      create_at m' (compute_next_expected lib m'.schedule m'.timezone now) db

  -- SET of the UPDATE; the slug, the status and the last check-in are kept.
  edit : CronMonitor → CronMonitor → CronMonitor
  edit m row = record row {
    name = m.name;
    schedule = m.schedule;
    timezone = m.timezone;
    grace_period_minutes = m.grace_period_minutes;
    max_runtime_minutes = m.max_runtime_minutes;
    next_expected_at = m.next_expected_at;
  }

  update_found : CronMonitor → Option CronMonitor → CronDb → Result (CronDb × CronMonitor)
  update_found m none db = failed not_found
  update_found m (some old) db =
      done (
        record db { monitors = update_where (is_monitor m.project_id m.id) (edit m) db.monitors },
        m,
      )

  update_at : CronMonitor → Option ℕ → CronDb → Result (CronDb × CronMonitor)
  update_at m none db = failed invalid_schedule
  update_at m (some next) db =
      update_found (record m { next_expected_at = some next })
        (find (is_monitor m.project_id m.id) db.monitors) db

  unfoldable pub update_cron_monitor : ℕ → CronMonitor → CronDb → Result (CronDb × CronMonitor)
  unfolding edit update_found update_at with_defaults
  update_cron_monitor now m db =
      let m' = with_defaults m in
      update_at m' (compute_next_expected lib m'.schedule m'.timezone now) db

delete_found : Option CronMonitor → ℕ → ℕ → CronDb → Result CronDb
delete_found none project id db = failed not_found
delete_found (some m) project id db = done (record db {
  monitors = keep (λ r. not (is_monitor project id r)) db.monitors;
  checkins = keep (λ c. not (c.monitor_id == id)) db.checkins;
})

unfoldable pub delete_cron_monitor : ℕ → ℕ → CronDb → Result CronDb
unfolding delete_found
delete_cron_monitor project id db =
    delete_found (find (is_monitor project id) db.monitors) project id db
