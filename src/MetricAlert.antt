-- ===== src/MetricAlert.antt =====
-- Metric alerts: the rules and their incidents (internal/store/metric_alerts.go), the evaluation of a
-- rule (internal/alert/metric_worker.go) and of an anomaly (internal/alert/anomaly.go).
pub mod Anomaly
pub mod Rules
pub mod Incidents
pub mod Worker
pub mod Agreed
mod Examples
use sightpane.Prelude.{ℕ, Bool, true, false, Option, List}
use sightpane.Prelude.Text.{Text}

-- float64 and fmt.Sprintf on it: `less` and `less_eq` are < and <=, `of` is a small constant,
-- `tenth` 0.1, `fixed n` is "%.nf". `numeric` is what a column NUMERIC(10, 2) holds of a value:
-- the value rounded to hundredths, `none` where it overflows.
pub record FloatLib : Type 1 where
  pub F : Type 0
  pub less : F → F → Bool
  pub less_eq : F → F → Bool
  pub div : F → F → F
  pub max : F → F → F
  pub of : ℕ → F
  pub tenth : F
  pub fixed : ℕ → F → Text
  pub show_int : ℕ → Text
  pub numeric : F → Option F

pub data MetricType : Type 0 where
  error_count error_rate transaction_duration_p95 unhandled_crash_count : MetricType

pub data Comparison : Type 0 where
  gt gte lt spike_multiplier : Comparison

pub data RuleStatus : Type 0 where
  ok warning firing : RuleStatus

unfoldable pub is_firing : RuleStatus → Bool
is_firing firing = true
is_firing ok = false
is_firing warning = false

pub record MetricAlertRule (lib : FloatLib) : Type 0 where
  pub id : ℕ
  pub project_id : ℕ
  pub name : Text
  pub metric_type : MetricType
  pub target_filter : Text
  pub comparison_operator : Comparison
  pub critical_threshold : lib.F
  pub warning_threshold : Option lib.F
  pub window_minutes : ℕ
  pub channel_ids : List ℕ
  pub is_active : Bool
  pub current_status : RuleStatus

-- `is_open` is the status "firing", its absence "resolved".
pub record MetricAlertIncident (lib : FloatLib) : Type 0 where
  pub id : ℕ
  pub rule_id : ℕ
  pub project_id : ℕ
  pub is_open : Bool
  pub triggered_at : ℕ
  pub resolved_at : Option ℕ
  pub peak_value : lib.F
  pub summary : Text

-- What NotifyMetricIncident is called with: the rule, the incident and whether it is resolved.
pub record Notice : Type 0 where
  pub rule_id : ℕ
  pub incident_id : ℕ
  pub is_resolved : Bool

-- The incidents stand newest first.
pub record AlertDb (lib : FloatLib) : Type 0 where
  pub rules : List (MetricAlertRule lib)
  pub incidents : List (MetricAlertIncident lib)
  pub next_rule : ℕ
  pub next_incident : ℕ
  pub notices : List Notice
