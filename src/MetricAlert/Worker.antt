-- ===== src/MetricAlert/Worker.antt =====
-- EvaluateRule and evaluateAll (internal/alert/metric_worker.go), with a notifier.
use sightpane.Prelude.{ℕ, Bool, true, false, Option, none, some, List, [], ◌∷◌, ◌++◌, if◌then◌else◌}
use sightpane.Prelude.Text.{Text, codes}
use sightpane.MetricAlert.{
  FloatLib, MetricType, error_count, error_rate, transaction_duration_p95, unhandled_crash_count,
  gt, gte, lt, spike_multiplier, RuleStatus, ok, warning, firing, is_firing, MetricAlertRule,
  MetricAlertIncident, AlertDb,
}
use sightpane.MetricAlert.Anomaly.{evaluate_anomaly}
use sightpane.MetricAlert.Rules.{list_all_active_metric_alert_rules}
use sightpane.MetricAlert.Incidents.{
  update_metric_rule_status, get_active_incident_for_rule, create_metric_incident,
  update_incident_peak, resolve_active_incident,
}

metric_name : MetricType → Text
metric_name error_count = codes "error_count"
metric_name error_rate = codes "error_rate"
metric_name transaction_duration_p95 = codes "transaction_duration_p95"
metric_name unhandled_crash_count = codes "unhandled_crash_count"

module _ (lib : FloatLib) where
  -- What EvaluateMetricValue returns for the rule, `none` on an error, and EvaluateMetricBaseline.
  pub record Reading : Type 0 where
    pub value : Option lib.F
    pub baseline : lib.F

  above : Option lib.F → (lib.F → Bool) → Bool
  above none test = false
  above (some threshold) test = test threshold

  threshold_summary : MetricAlertRule lib → lib.F → Text → Text
  unfolding metric_name
  threshold_summary r val sign =
      metric_name r.metric_type
      ++ codes " was "
      ++ lib.fixed 2 val
      ++ codes " in last "
      ++ lib.show_int r.window_minutes
      ++ codes "m (critical threshold: "
      ++ sign
      ++ codes " "
      ++ lib.fixed 2 r.critical_threshold
      ++ codes ")"

  pub record Judgement : Type 0 where
    pub fires : Bool
    pub warns : Bool
    pub summary : Text

  -- The `switch r.ComparisonOperator`.
  unfoldable pub judge : MetricAlertRule lib → lib.F → lib.F → Judgement
  unfolding above threshold_summary
  judge r val base = elim r.comparison_operator [
    | spike_multiplier ↦
        let anom = evaluate_anomaly lib val base r.critical_threshold (lib.of 5) in
        record { fires = anom.is_anomaly; warns = false; summary = anom.reason }
    | gt ↦ record {
      fires = lib.less r.critical_threshold val;
      warns = above r.warning_threshold (λ t. lib.less t val);
      summary = threshold_summary r val (codes ">");
    }
    | gte ↦ record {
      fires = lib.less_eq r.critical_threshold val;
      warns = above r.warning_threshold (λ t. lib.less_eq t val);
      summary = threshold_summary r val (codes ">=");
    }
    | lt ↦ record {
      fires = lib.less val r.critical_threshold;
      warns = above r.warning_threshold (λ t. lib.less val t);
      summary = threshold_summary r val (codes "<");
    }
  ]

  unfoldable pub notify :
      MetricAlertRule lib → MetricAlertIncident lib → Bool → AlertDb lib → AlertDb lib
  notify r i done db = record db {
    notices = db.notices ++ record { rule_id = r.id; incident_id = i.id; is_resolved = done } ∷ [];
  }

  unfoldable pub open_incident :
      MetricAlertRule lib
      → Option (AlertDb lib × MetricAlertIncident lib)
      → AlertDb lib
      → AlertDb lib
  unfolding notify
  open_incident r none db = db
  open_incident r (some (db', i)) db = notify r i false db'

  -- isFiring, where the rule was not firing.
  unfoldable pub fire : ℕ → MetricAlertRule lib → lib.F → Text → AlertDb lib → AlertDb lib
  unfolding open_incident
  fire now r val summary db =
      let db1 = update_metric_rule_status lib r.id firing db in
      open_incident r (create_metric_incident lib r.id r.project_id val summary now db1) db1

  unfoldable pub raise_active : lib.F → Option (MetricAlertIncident lib) → AlertDb lib → AlertDb lib
  raise_active val none db = db
  raise_active val (some i) db = update_incident_peak lib i.id val db

  -- isFiring, where the rule was firing.
  unfoldable pub keep_firing : MetricAlertRule lib → lib.F → AlertDb lib → AlertDb lib
  unfolding raise_active
  keep_firing r val db = raise_active val (get_active_incident_for_rule lib r.id db) db

  unfoldable pub resolve_active :
      ℕ → MetricAlertRule lib → lib.F → Option (MetricAlertIncident lib) → AlertDb lib → AlertDb lib
  unfolding notify
  resolve_active now r val none db = db
  resolve_active now r val (some i) db =
      notify r i true (resolve_active_incident lib now i.id val db)

  -- Not firing any more: the incident is resolved.
  unfoldable pub recover : ℕ → MetricAlertRule lib → lib.F → RuleStatus → AlertDb lib → AlertDb lib
  unfolding resolve_active
  recover now r val to db =
      update_metric_rule_status lib r.id to
        (resolve_active now r val (get_active_incident_for_rule lib r.id db) db)

  -- Between "ok" and "warning" only the status moves.
  unfoldable pub calm : MetricAlertRule lib → RuleStatus → AlertDb lib → AlertDb lib
  calm r warning db = elim r.current_status [
    | warning ↦ db
    | _ ↦ update_metric_rule_status lib r.id warning db
  ]
  calm r to db = elim r.current_status [ ok ↦ db | _ ↦ update_metric_rule_status lib r.id to db ]

  unfoldable pub settle : ℕ → MetricAlertRule lib → lib.F → RuleStatus → AlertDb lib → AlertDb lib
  unfolding recover calm
  settle now r val to db =
      if is_firing r.current_status then recover now r val to db else calm r to db

  -- The state machine.
  unfoldable pub advance : ℕ → MetricAlertRule lib → lib.F → Judgement → AlertDb lib → AlertDb lib
  unfolding fire keep_firing settle
  advance now r val j db =
      if j.fires
      then (if is_firing r.current_status
          then keep_firing r val db
          else fire now r val j.summary db)
      else if j.warns
      then settle now r val warning db
      else settle now r val ok db

  unfoldable pub evaluate_value :
      ℕ → MetricAlertRule lib → Option lib.F → lib.F → AlertDb lib → AlertDb lib
  unfolding advance
  evaluate_value now r none base db = db
  evaluate_value now r (some val) base db = advance now r val (judge r val base) db

  unfoldable pub evaluate_rule : ℕ → MetricAlertRule lib → Reading → AlertDb lib → AlertDb lib
  unfolding evaluate_value
  evaluate_rule now r reading db = evaluate_value now r reading.value reading.baseline db

  unfoldable pub evaluate_each :
      ℕ → (MetricAlertRule lib → Reading) → List (MetricAlertRule lib) → AlertDb lib → AlertDb lib
  evaluate_each now read [] db = db
  evaluate_each now read (r ∷ rs) db = evaluate_each now read rs (evaluate_rule now r (read r) db)

  unfoldable pub evaluate_all : ℕ → (MetricAlertRule lib → Reading) → AlertDb lib → AlertDb lib
  unfolding evaluate_each
  evaluate_all now read db = evaluate_each now read (list_all_active_metric_alert_rules lib db) db
