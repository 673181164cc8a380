-- ===== src/Cron/Schedule.antt =====
-- ComputeNextExpected (internal/store/crons.go) over the cron library and Go's time zones.
use sightpane.Prelude.{ℕ, ◌<◌, ◌≡◌, Option, none, some, if◌then◌else◌}
use sightpane.Prelude.Text.{Text, is_empty}

-- github.com/robfig/cron: `parse` is Parser.Parse, `next` is Schedule.Next, in a location.
-- `load` is time.LoadLocation.
pub record CronLib : Type 1 where
  pub Schedule : Type 0
  pub Location : Type 0
  pub parse : Text → Option Schedule
  pub load : Text → Option Location
  pub utc : Location
  pub next : Schedule → Location → ℕ → ℕ

-- Schedule.Next "returns the next activation time, later than the given time".
pub record NextIsLater (lib : CronLib) : Type 0 where
  pub later : (s : lib.Schedule) (l : lib.Location) (t : ℕ) → t < lib.next s l t

module _ (lib : CronLib) where
  or_utc : Option lib.Location → lib.Location
  or_utc none = lib.utc
  or_utc (some l) = l

  location : Text → lib.Location
  unfolding or_utc
  location tz = if is_empty tz then lib.utc else or_utc (lib.load tz)

  next_of : Option lib.Schedule → Text → ℕ → Option ℕ
  next_of none tz t = none
  next_of (some s) tz t = some (lib.next s (location tz) t)

  -- `none` is an invalid schedule.
  unfoldable pub compute_next_expected : Text → Text → ℕ → Option ℕ
  unfolding location next_of
  compute_next_expected schedule tz t = next_of (lib.parse schedule) tz t

  next_of_later :
      NextIsLater lib
      → (s : Option lib.Schedule) (tz : Text) (t n : ℕ) → next_of s tz t ≡ some n
      → t < n
  unfolding next_of
  next_of_later h none tz t n e = cc
  next_of_later h (some s) tz t n e =
      let same : lib.next s (location tz) t ≡ n = cc in rw (← same) (h.later s (location tz) t)

  pub compute_next_expected_later :
      NextIsLater lib
      → (schedule tz : Text) (t n : ℕ) → compute_next_expected schedule tz t ≡ some n
      → t < n
  unfolding compute_next_expected
  compute_next_expected_later h schedule tz t n e = next_of_later h (lib.parse schedule) tz t n e
