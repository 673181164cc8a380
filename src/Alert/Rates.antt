-- ===== src/Alert/Rates.antt =====
-- evaluateRateRules (internal/alert/notifier.go). What EvaluateRateMetrics counts is an input.
pub mod Cooldown
use sightpane.Prelude.{
  ℕ, ◌+◌, ◌*◌, ◌-◌, ◌%◌, ◌^◌, ◌==◌, Bool, true, false, not, ◌||◌, ◌&&◌, Option, none, some, List,
  [], ◌∷◌, length, if◌then◌else◌, ltb, leb,
}
use sightpane.Prelude.Int.{ℤ, pos, negsuc, sub_ℕ, ltb_ℤ}
use sightpane.Prelude.Text.{Text, codes, text_eq}
use sightpane.Alert.{RateLib, AlertChannel, AlertRule, AlertDb, Params}
use sightpane.Alert.Tables.{list_alert_rules, last_alert_delivery}
use sightpane.Alert.Deliver.{Send, deliver}

abbrev pub minute : ℕ
minute = 60 * 1000000000

-- The value, or a default where it is not positive.
unfoldable pub positive_or : ℕ → ℤ → ℕ
positive_or default (pos n) = if n == 0 then default else n
positive_or default (negsuc n) = default

-- The int64 that a natural number wraps around to.
unfoldable pub int64 : ℕ → ℤ
int64 n = let m = n % 2 ^ 64 in if ltb m (2 ^ 63) then pos m else negsuc (2 ^ 64 - m - 1)

module _ (lib : RateLib) where
  pub record Metrics : Type 0 where
    pub errors : ℕ
    pub sessions : ℕ
    pub crash_free : lib.F

  -- For a project and a window in minutes; none is an error of the query.
  abbrev pub Measure : Type 0
  Measure = ℕ → ℕ → Option Metrics

  threshold_or : lib.F → lib.F → lib.F
  threshold_or default threshold = if lib.is_positive threshold then threshold else default

  unfoldable pub triggered : AlertRule lib → Metrics → Bool
  unfolding threshold_or
  triggered r m =
      if text_eq r.kind (codes "rate_spike")
      then lib.less_eq (threshold_or lib.ten r.params.threshold) (lib.of_ℕ m.errors)
      else if text_eq r.kind (codes "session_crash_free")
      then leb 5 m.sessions
        && lib.less m.crash_free (threshold_or lib.nine_tenths r.params.threshold)
      else false

  unfoldable pub is_rate_rule : AlertRule lib → Bool
  is_rate_rule r =
      text_eq r.kind (codes "rate_spike") || text_eq r.kind (codes "session_crash_free")

  unfoldable pub cooldown_minutes_of : AlertRule lib → ℕ
  unfolding positive_or
  cooldown_minutes_of r = positive_or 30 r.params.cooldown_minutes

  -- time.Duration(params.CooldownMinutes)*time.Minute, a product of int64.
  unfoldable pub cooldown_of : AlertRule lib → ℤ
  unfolding cooldown_minutes_of int64
  cooldown_of r = int64 (cooldown_minutes_of r * minute)

  -- time.Since(lastSent) < cooldown
  unfoldable pub is_cooling : Option ℕ → ℤ → ℕ → Bool
  is_cooling none cooldown now = false
  is_cooling (some last) cooldown now = ltb_ℤ (sub_ℕ now last) cooldown

  unfoldable pub tell : Send → ℕ → Option Metrics → AlertRule lib → AlertDb lib → AlertDb lib
  unfolding deliver triggered
  tell send now none r db = db
  tell send now (some m) r db =
      if triggered r m then deliver send now r.project_id r.id none [] r.channel_ids db else db

  unfoldable pub evaluate_rate_rule : Send → ℕ → Measure → AlertRule lib → AlertDb lib → AlertDb lib
  unfolding is_rate_rule is_cooling cooldown_of tell last_alert_delivery positive_or
  evaluate_rate_rule send now measure r db =
      if not r.enabled || not (is_rate_rule r)
      then db
      else if is_cooling (last_alert_delivery r.id db) (cooldown_of r) now
      then db
      else tell send now (measure r.project_id (positive_or 15 r.params.window_minutes)) r db

  unfoldable pub evaluate_rules :
      Send → ℕ → Measure → List (AlertRule lib) → AlertDb lib → AlertDb lib
  unfolding evaluate_rate_rule
  evaluate_rules send now measure [] db = db
  evaluate_rules send now measure (r ∷ rs) db =
      evaluate_rules send now measure rs (evaluate_rate_rule send now measure r db)

  -- For the projects that ListAllProjects returns.
  unfoldable pub evaluate_rate_rules : Send → ℕ → Measure → List ℕ → AlertDb lib → AlertDb lib
  unfolding evaluate_rules list_alert_rules
  evaluate_rate_rules send now measure [] db = db
  evaluate_rate_rules send now measure (p ∷ ps) db =
      evaluate_rate_rules send now measure ps
        (evaluate_rules send now measure (list_alert_rules p db) db)
