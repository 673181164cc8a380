-- ===== src/MetricAlert/Agreed.antt =====
-- A rule is firing exactly while one incident of it is open.
pub mod Counts
pub mod Rule
pub mod Firing
pub mod Steps
pub mod Runs
pub mod Edits
pub mod Reached
use sightpane.Prelude.{ℕ, ◌+◌, ◌<◌, ◌≡◌, List, [], ◌∷◌, All, HasUnique, if◌then◌else◌}
use sightpane.MetricAlert.{
  FloatLib, MetricAlertRule, MetricAlertIncident, AlertDb, RuleStatus, is_firing,
}
use sightpane.MetricAlert.Incidents.{is_open_of}

unfoldable pub expected_open : RuleStatus → ℕ
expected_open s = if is_firing s then 1 else 0

module _ (lib : FloatLib) where
  -- The number of open incidents of a rule.
  unfoldable pub open_count : ℕ → List (MetricAlertIncident lib) → ℕ
  open_count rule [] = 0
  open_count rule (i ∷ incidents) =
      (if is_open_of lib rule i then 1 else 0) + open_count rule incidents

  abbrev pub AgreesWith : List (MetricAlertIncident lib) → MetricAlertRule lib → Type 0
  AgreesWith incidents r = open_count r.id incidents ≡ expected_open r.current_status

  pub record IsAgreed (db : AlertDb lib) : Type 0 where
    pub statuses : All (AgreesWith db.incidents) db.rules
    pub rule_ids : HasUnique (λ r. r.id) db.rules
    pub rules_below : All (λ r. r.id < db.next_rule) db.rules
    pub incident_ids : HasUnique (λ i. i.id) db.incidents
    pub incidents_below : All (λ i. i.id < db.next_incident) db.incidents
    pub owners : All (λ i. i.rule_id < db.next_rule) db.incidents
