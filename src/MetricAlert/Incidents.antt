-- ===== src/MetricAlert/Incidents.antt =====
-- The operations on incidents, and on the status of a rule (internal/store/metric_alerts.go).
use sightpane.Prelude.{
  ℕ, ◌+◌, ◌==◌, Bool, true, false, ◌&&◌, Option, none, some, ◌∷◌, find, update_where, if◌then◌else◌,
}
use sightpane.Prelude.Text.{Text}
use sightpane.MetricAlert.{FloatLib, RuleStatus, MetricAlertRule, MetricAlertIncident, AlertDb}

module _ (lib : FloatLib) where
  unfoldable pub has_rule_id : ℕ → MetricAlertRule lib → Bool
  has_rule_id id r = r.id == id

  unfoldable pub has_incident_id : ℕ → MetricAlertIncident lib → Bool
  has_incident_id id i = i.id == id

  unfoldable pub set_status : RuleStatus → MetricAlertRule lib → MetricAlertRule lib
  set_status s r = record r { current_status = s }

  unfoldable pub update_metric_rule_status : ℕ → RuleStatus → AlertDb lib → AlertDb lib
  unfolding has_rule_id set_status
  update_metric_rule_status id s db = record db {
    rules = update_where (has_rule_id id) (set_status s) db.rules;
  }

  -- WHERE rule_id=… AND status='firing'; the newest of them.
  unfoldable pub is_open_of : ℕ → MetricAlertIncident lib → Bool
  is_open_of rule i = i.rule_id == rule && i.is_open

  unfoldable pub get_active_incident_for_rule : ℕ → AlertDb lib → Option (MetricAlertIncident lib)
  unfolding is_open_of
  get_active_incident_for_rule rule db = find (is_open_of rule) db.incidents

  unfoldable pub insert_incident :
      ℕ → ℕ → Option lib.F → Text → ℕ → AlertDb lib → Option (AlertDb lib × MetricAlertIncident lib)
  insert_incident rule project none summary now db = none
  insert_incident rule project (some peak) summary now db =
      let i : MetricAlertIncident lib = record {
        id = db.next_incident;
        rule_id = rule;
        project_id = project;
        is_open = true;
        triggered_at = now;
        resolved_at = none;
        peak_value = peak;
        summary = summary;
      } in
      some (record db { incidents = i ∷ db.incidents; next_incident = db.next_incident + 1 }, i)

  -- `none` where the value overflows the column.
  unfoldable pub create_metric_incident :
      ℕ → ℕ → lib.F → Text → ℕ → AlertDb lib → Option (AlertDb lib × MetricAlertIncident lib)
  unfolding insert_incident
  create_metric_incident rule project value summary now db =
      insert_incident rule project (lib.numeric value) summary now db

  -- GREATEST(peak_value, $1), which the column holds already, or the value rounded.
  unfoldable pub greatest : lib.F → lib.F → lib.F
  greatest peak value = if lib.less peak value then value else peak

  unfoldable pub raise_peak : lib.F → MetricAlertIncident lib → MetricAlertIncident lib
  unfolding greatest
  raise_peak value i = record i { peak_value = greatest i.peak_value value }

  unfoldable pub write_peak : ℕ → Option lib.F → AlertDb lib → AlertDb lib
  unfolding has_incident_id raise_peak
  write_peak id none db = db
  write_peak id (some value) db = record db {
    incidents = update_where (has_incident_id id) (raise_peak value) db.incidents;
  }

  unfoldable pub update_incident_peak : ℕ → lib.F → AlertDb lib → AlertDb lib
  unfolding write_peak
  update_incident_peak id value db = write_peak id (lib.numeric value) db

  unfoldable pub resolve : ℕ → lib.F → MetricAlertIncident lib → MetricAlertIncident lib
  unfolding greatest
  resolve now value i = record i {
    is_open = false;
    resolved_at = some now;
    peak_value = greatest i.peak_value value;
  }

  unfoldable pub write_resolved : ℕ → ℕ → Option lib.F → AlertDb lib → AlertDb lib
  unfolding has_incident_id resolve
  write_resolved now id none db = db
  write_resolved now id (some value) db = record db {
    incidents =
        update_where (λ i. has_incident_id id i && i.is_open) (resolve now value) db.incidents;
  }

  unfoldable pub resolve_active_incident : ℕ → ℕ → lib.F → AlertDb lib → AlertDb lib
  unfolding write_resolved
  resolve_active_incident now id value db = write_resolved now id (lib.numeric value) db
