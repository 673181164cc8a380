-- ===== src/MetricAlert/Agreed/Firing.antt =====
-- One evaluation that finds a rule firing.
use sightpane.Prelude.{
  ℕ, ◌+◌, ◌<◌, ◌≡◌, refl, ap, ◌∙◌, sym, Bool, true, false, none, some, [], ◌∷◌, ◌++◌, All-find,
  All-mono, All-update_where, HasUnique-update_where, find, update_where, arith,
}
use sightpane.Prelude.Text.{Text}
use sightpane.MetricAlert.{
  FloatLib, MetricAlertRule, MetricAlertIncident, Notice, AlertDb, RuleStatus, firing, is_firing,
}
use sightpane.MetricAlert.Incidents.{
  is_open_of, has_incident_id, has_rule_id, raise_peak, update_metric_rule_status,
  get_active_incident_for_rule, create_metric_incident, update_incident_peak,
}
use sightpane.MetricAlert.Worker.{fire, keep_firing, notify}
use sightpane.MetricAlert.Agreed.{IsAgreed, open_count, expected_open}
use sightpane.MetricAlert.Agreed.Counts.{find_open, open_count-raise_peak}
use sightpane.MetricAlert.Agreed.Rule.{
  IsOutcome, IsStep, notified, moved-IsOutcome, kept-IsOutcome, own_before,
}

module _ (lib : FloatLib) (r : MetricAlertRule lib) (db : AlertDb lib) (a : IsAgreed lib db)
    (found : find (has_rule_id lib r.id) db.rules ≡ some r) (now : ℕ) (val w : lib.F)
    (fits : lib.numeric val ≡ some w) where
  -- The incident that a rule which was not firing opens.
  abbrev opened : Text → MetricAlertIncident lib
  opened summary = record {
    id = db.next_incident;
    rule_id = r.id;
    project_id = r.project_id;
    is_open = true;
    triggered_at = now;
    resolved_at = none;
    peak_value = w;
    summary = summary;
  }

  opened-IsStep :
      (summary : Text)
      → is_firing r.current_status ≡ false
      → IsStep lib r firing db (opened summary ∷ db.incidents) (db.next_incident + 1)
  unfolding open_count expected_open is_open_of is_firing
  opened-IsStep summary calm_before = record {
    own = let before = own_before lib r db a found in ground (arith, before);
    counts = λ b e. ground arith;
    ids = (
      All-mono (λ i. i.id < db.next_incident) _ db.incidents (λ i k. ground arith)
          a.incidents_below,
      a.incident_ids,
    );
    below = (
      omega arith,
      All-mono (λ i. i.id < db.next_incident) _ db.incidents (λ i k. omega arith) a.incidents_below,
    );
    owned = (
      All-find (λ q. q.id < db.next_rule) (has_rule_id lib r.id) db.rules a.rules_below found,
      a.owners,
    );
  }

  pub fire-IsOutcome :
      (summary : Text)
      → is_firing r.current_status ≡ false
      → IsOutcome lib r firing db (fire lib now r val summary db)
  unfolding fire create_metric_incident update_metric_rule_status notify notified is_firing
  fire-IsOutcome summary calm_before =
      let notice : Notice = record {
        rule_id = r.id;
        incident_id = db.next_incident;
        is_resolved = false;
      } in
      rw fits (
        moved-IsOutcome lib r db a found firing (opened summary ∷ db.incidents)
          (db.next_incident + 1) db.next_incident (db.notices ++ notice ∷ []) (rw calm_before refl)
          (opened-IsStep summary calm_before))

  raised-IsStep :
      (s : RuleStatus) (p : MetricAlertIncident lib → Bool)
      → s ≡ r.current_status
      → IsStep lib r s db (update_where p (raise_peak lib w) db.incidents) db.next_incident
  unfolding raise_peak
  raised-IsStep s p e = record {
    own =
        open_count-raise_peak lib r.id p w db.incidents
        ∙ own_before lib r db a found
        ∙ ap expected_open (sym e);
    counts = λ b k. open_count-raise_peak lib b p w db.incidents;
    ids =
        HasUnique-update_where (λ i. i.id) p (raise_peak lib w) db.incidents (λ i. refl)
          a.incident_ids;
    below =
        All-update_where (λ i. i.id < db.next_incident) (λ i. i.id < db.next_incident) p
          (raise_peak lib w) db.incidents (λ i k _. k) (λ i k _. k) a.incidents_below;
    owned =
        All-update_where (λ i. i.rule_id < db.next_rule) (λ i. i.rule_id < db.next_rule) p
          (raise_peak lib w) db.incidents (λ i k _. k) (λ i k _. k) a.owners;
  }

  pub active :
      is_firing r.current_status ≡ true
      → (x : MetricAlertIncident lib) × (find (is_open_of lib r.id) db.incidents ≡ some x)
  unfolding expected_open
  active before =
      find_open lib r.id db.incidents (let own = own_before lib r db a found in ground arith)

  firing_only : (s : RuleStatus) → is_firing s ≡ true → firing ≡ s
  unfolding is_firing
  firing_only s e = ground arith

  pub keep_firing-IsOutcome :
      is_firing r.current_status ≡ true → IsOutcome lib r firing db (keep_firing lib r val db)
  unfolding keep_firing get_active_incident_for_rule update_incident_peak
  keep_firing-IsOutcome before =
      let (x, at) = active before in
      let same = firing_only r.current_status before in
      rw (at, fits)
        (kept-IsOutcome lib r db a found firing
          (update_where (has_incident_id lib x.id) (raise_peak lib w) db.incidents) same
          (raised-IsStep firing (has_incident_id lib x.id) same))
