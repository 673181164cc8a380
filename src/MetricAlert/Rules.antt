-- ===== src/MetricAlert/Rules.antt =====
-- The operations on metric alert rules (internal/store/metric_alerts.go).
use sightpane.Prelude.{
  ℕ, ◌+◌, ◌==◌, Bool, ◌&&◌, ◌||◌, not, Option, none, some, List, [], ◌∷◌, ◌++◌, find, keep,
  update_where, if◌then◌else◌,
}
use sightpane.Prelude.Int.{ℤ, pos, negsuc}
use sightpane.Prelude.Text.{Text, codes, text_eq, is_empty, trim_space}
use sightpane.MetricAlert.{
  FloatLib, MetricType, error_count, error_rate, transaction_duration_p95, unhandled_crash_count,
  Comparison, gt, gte, lt, spike_multiplier, ok, MetricAlertRule, AlertDb,
}

-- `refused` is an error of the database: a CHECK or a NUMERIC(10, 2) that overflows.
pub data RuleError : Type 0 where
  invalid_name invalid_metric_type invalid_operator not_found refused : RuleError

pub data Result (A : Type 0) : Type 0 where
  done : A → Result A
  failed : RuleError → Result A

unfoldable pub read_metric_type : Text → Option MetricType
read_metric_type s =
    if text_eq s (codes "error_count")
    then some error_count
    else if text_eq s (codes "error_rate")
    then some error_rate
    else if text_eq s (codes "transaction_duration_p95")
    then some transaction_duration_p95
    else if text_eq s (codes "unhandled_crash_count")
    then some unhandled_crash_count
    else none

unfoldable pub read_comparison : Text → Option Comparison
read_comparison s =
    if text_eq s (codes "gt")
    then some gt
    else if text_eq s (codes "gte")
    then some gte
    else if text_eq s (codes "lt")
    then some lt
    else if text_eq s (codes "spike_multiplier")
    then some spike_multiplier
    else none

-- CHECK (window_minutes IN (1, 5, 10, 15, 30, 60)), of a window with its default.
unfoldable pub read_window : ℤ → Option ℕ
read_window (negsuc n) = some 5
read_window (pos n) =
    if n == 0
    then some 5
    else if n == 1 || n == 5 || n == 10 || n == 15 || n == 30 || n == 60
    then some n
    else none

module _ (lib : FloatLib) where
  -- The request of CreateMetricAlertRule and UpdateMetricAlertRule.
  pub record RuleRequest : Type 0 where
    pub id : ℕ
    pub project_id : ℕ
    pub name : Text
    pub metric_type : Text
    pub target_filter : Text
    pub comparison_operator : Text
    pub critical_threshold : lib.F
    pub warning_threshold : Option lib.F
    pub window_minutes : ℤ
    pub channel_ids : List ℕ
    pub is_active : Bool

  unfoldable pub numeric_opt : Option lib.F → Option (Option lib.F)
  numeric_opt none = some none
  numeric_opt (some x) = elim (lib.numeric x) [ none ↦ none | some y ↦ some (some y) ]

  unfoldable pub row_of :
      RuleRequest
      → Text
      → MetricType
      → Comparison
      → Option ℕ
      → Option lib.F
      → Option (Option lib.F)
      → Result (MetricAlertRule lib)
  row_of r name metric comparison (some window) (some critical) (some warn) = done (record {
    id = r.id;
    project_id = r.project_id;
    name = name;
    metric_type = metric;
    target_filter = trim_space r.target_filter;
    comparison_operator = comparison;
    critical_threshold = critical;
    warning_threshold = warn;
    window_minutes = window;
    channel_ids = r.channel_ids;
    is_active = r.is_active;
    current_status = ok;
  })
  row_of r name metric comparison _ _ _ = failed refused

  unfoldable pub with_operator :
      RuleRequest → Text → MetricType → Option Comparison → Result (MetricAlertRule lib)
  unfolding row_of read_window numeric_opt
  with_operator r name metric none = failed invalid_operator
  with_operator r name metric (some comparison) =
      row_of r name metric comparison (read_window r.window_minutes)
        (lib.numeric r.critical_threshold) (numeric_opt r.warning_threshold)

  unfoldable pub with_metric : RuleRequest → Text → Option MetricType → Result (MetricAlertRule lib)
  unfolding with_operator read_comparison
  with_metric r name none = failed invalid_metric_type
  with_metric r name (some metric) =
      with_operator r name metric (read_comparison (trim_space r.comparison_operator))

  -- The checks that both operations begin with, and the columns that they write.
  unfoldable pub validated : RuleRequest → Result (MetricAlertRule lib)
  unfolding with_metric read_metric_type
  validated r =
      if is_empty (trim_space r.name)
      then failed invalid_name
      else with_metric r (trim_space r.name) (read_metric_type (trim_space r.metric_type))

  -- The reply is the request with the id.
  unfoldable pub insert_rule : Result (MetricAlertRule lib) → AlertDb lib → Result (AlertDb lib × ℕ)
  insert_rule (failed e) db = failed e
  insert_rule (done r) db =
      let row = record r { id = db.next_rule; current_status = ok } in
      done (record db { rules = db.rules ++ row ∷ []; next_rule = db.next_rule + 1 }, db.next_rule)

  unfoldable pub create_metric_alert_rule : RuleRequest → AlertDb lib → Result (AlertDb lib × ℕ)
  unfolding validated insert_rule
  create_metric_alert_rule r db = insert_rule (validated r) db

  unfoldable pub is_rule : ℕ → ℕ → MetricAlertRule lib → Bool
  is_rule project id r = r.project_id == project && r.id == id

  -- SET of the UPDATE; the status is kept.
  unfoldable pub edit : MetricAlertRule lib → MetricAlertRule lib → MetricAlertRule lib
  edit r row = record row {
    name = r.name;
    metric_type = r.metric_type;
    target_filter = r.target_filter;
    comparison_operator = r.comparison_operator;
    critical_threshold = r.critical_threshold;
    warning_threshold = r.warning_threshold;
    window_minutes = r.window_minutes;
    channel_ids = r.channel_ids;
    is_active = r.is_active;
  }

  unfoldable pub write_rule :
      Result (MetricAlertRule lib)
      → Option (MetricAlertRule lib)
      → AlertDb lib
      → Result (AlertDb lib)
  write_rule (failed e) row db = failed e
  write_rule (done r) none db = failed not_found
  write_rule (done r) (some row) db =
      done (record db { rules = update_where (is_rule r.project_id r.id) (edit r) db.rules })

  unfoldable pub update_metric_alert_rule : RuleRequest → AlertDb lib → Result (AlertDb lib)
  unfolding validated write_rule is_rule edit
  update_metric_alert_rule r db =
      write_rule (validated r) (find (is_rule r.project_id r.id) db.rules) db

  -- ON DELETE CASCADE takes the incidents of the rule.
  unfoldable pub delete_found :
      ℕ → ℕ → Option (MetricAlertRule lib) → AlertDb lib → Result (AlertDb lib)
  delete_found project id none db = failed not_found
  delete_found project id (some r) db = done (record db {
    rules = keep (λ s. not (is_rule project id s)) db.rules;
    incidents = keep (λ i. not (i.rule_id == id)) db.incidents;
  })

  unfoldable pub delete_metric_alert_rule : ℕ → ℕ → AlertDb lib → Result (AlertDb lib)
  unfolding delete_found is_rule
  delete_metric_alert_rule project id db =
      delete_found project id (find (is_rule project id) db.rules) db

  unfoldable pub list_metric_alert_rules : ℕ → AlertDb lib → List (MetricAlertRule lib)
  list_metric_alert_rules project db = keep (λ r. r.project_id == project) db.rules

  unfoldable pub list_all_active_metric_alert_rules : AlertDb lib → List (MetricAlertRule lib)
  list_all_active_metric_alert_rules db = keep (λ r. r.is_active) db.rules
