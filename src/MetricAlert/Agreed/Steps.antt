-- ===== src/MetricAlert/Agreed/Steps.antt =====
-- The cases of one evaluation of a rule.
use mathlib.Core.Path.{subst}
use sightpane.Prelude.{
  ℕ, ◌+◌, ◌<◌, ◌≡◌, ◌==◌, refl, ap, ◌∙◌, sym, Bool, true, false, ◌&&◌, some, List, [], ◌∷◌, ◌++◌,
  All-update_where, HasUnique-update_where, find, update_where, arith, if◌then◌else◌, Bool-cases,
  inl, inr, ◌⊎◌,
}
use sightpane.MetricAlert.{
  FloatLib, MetricAlertRule, MetricAlertIncident, Notice, AlertDb, RuleStatus, ok, warning, firing,
  is_firing,
}
use sightpane.MetricAlert.Incidents.{
  is_open_of, has_incident_id, has_rule_id, resolve, update_metric_rule_status,
  get_active_incident_for_rule, resolve_active_incident,
}
use sightpane.MetricAlert.Worker.{Judgement, advance, recover, settle, calm, notify}
use sightpane.MetricAlert.Agreed.{IsAgreed, open_count, expected_open}
use sightpane.MetricAlert.Agreed.Counts.{open_count-resolve}
use sightpane.MetricAlert.Agreed.Rule.{
  IsOutcome, IsStep, level, notified, moved-IsOutcome, kept-IsOutcome, own_before,
}
use sightpane.MetricAlert.Agreed.Firing.{fire-IsOutcome, keep_firing-IsOutcome, active}

module _ (lib : FloatLib) (r : MetricAlertRule lib) (db : AlertDb lib) (a : IsAgreed lib db)
    (found : find (has_rule_id lib r.id) db.rules ≡ some r) (now : ℕ) (val w : lib.F)
    (fits : lib.numeric val ≡ some w) where
  resolved_rows : MetricAlertIncident lib → List (MetricAlertIncident lib)
  resolved_rows x =
      update_where (λ i. has_incident_id lib x.id i && i.is_open) (resolve lib now w) db.incidents

  one_less :
      (n m id : ℕ)
      → n + (if id == id then 1 else 0) ≡ m
      → m ≡ expected_open r.current_status
      → is_firing r.current_status ≡ true
      → (s : RuleStatus) → is_firing s ≡ false
      → n ≡ expected_open s
  unfolding expected_open
  one_less n m id e k before s after = ground arith

  same_count : (n m a b : ℕ) → n + (if a == b then 1 else 0) ≡ m → (a == b) ≡ false → n ≡ m
  same_count n m a b e k = ground arith

  resolved-IsStep :
      (s : RuleStatus) (x : MetricAlertIncident lib)
      → is_firing r.current_status ≡ true
      → is_firing s ≡ false
      → find (is_open_of lib r.id) db.incidents ≡ some x
      → IsStep lib r s db (resolved_rows x) db.next_incident
  unfolding resolve resolved_rows
  resolved-IsStep s x before after at =
      let p : MetricAlertIncident lib → Bool = λ i. has_incident_id lib x.id i && i.is_open in
      let count = λ (b : ℕ). open_count-resolve lib r.id b now w db.incidents x a.incident_ids at in
      record {
        own =
            one_less (open_count lib r.id (resolved_rows x)) _ r.id (count r.id)
              (own_before lib r db a found) before s after;
        counts = λ b k. same_count (open_count lib b (resolved_rows x)) _ r.id b (count b) k;
        ids =
            HasUnique-update_where (λ i. i.id) p (resolve lib now w) db.incidents (λ i. refl)
              a.incident_ids;
        below =
            All-update_where (λ i. i.id < db.next_incident) (λ i. i.id < db.next_incident) p
              (resolve lib now w) db.incidents (λ i k _. k) (λ i k _. k) a.incidents_below;
        owned =
            All-update_where (λ i. i.rule_id < db.next_rule) (λ i. i.rule_id < db.next_rule) p
              (resolve lib now w) db.incidents (λ i k _. k) (λ i k _. k) a.owners;
      }

  recover-IsOutcome :
      (s : RuleStatus)
      → is_firing r.current_status ≡ true
      → is_firing s ≡ false
      → IsOutcome lib r s db (recover lib now r val s db)
  unfolding recover get_active_incident_for_rule resolve_active_incident update_metric_rule_status
      notify notified resolved_rows
  recover-IsOutcome s before after =
      let (x, at) = active lib r db a found now val w fits before in
      let notice : Notice = record { rule_id = r.id; incident_id = x.id; is_resolved = true } in
      rw (at, fits)
        (moved-IsOutcome lib r db a found s (resolved_rows x) db.next_incident x.id
          (db.notices ++ notice ∷ []) (rw (before, after) refl)
          (resolved-IsStep s x before after at))

  same-IsStep :
      (s : RuleStatus) (next : ℕ)
      → next ≡ db.next_incident
      → expected_open s ≡ expected_open r.current_status
      → IsStep lib r s db db.incidents next
  same-IsStep s next k e = record {
    own = own_before lib r db a found ∙ sym e;
    counts = λ b k. refl;
    ids = a.incident_ids;
    below = rw k a.incidents_below;
    owned = a.owners;
  }

  calm_moved :
      (s : RuleStatus)
      → is_firing r.current_status ≡ false
      → is_firing s ≡ false
      → IsOutcome lib r s db (update_metric_rule_status lib r.id s db)
  unfolding update_metric_rule_status notified expected_open
  calm_moved s before after =
      moved-IsOutcome lib r db a found s db.incidents db.next_incident 0 db.notices
        (rw (before, after) refl) (same-IsStep s db.next_incident refl (rw (before, after) refl))

  calm_kept : (s : RuleStatus) → s ≡ r.current_status → IsOutcome lib r s db db
  calm_kept s e =
      kept-IsOutcome lib r db a found s db.incidents e
        (same-IsStep s db.next_incident refl (ap expected_open e))

  RuleStatus-cases : (s : RuleStatus) → (s ≡ ok) ⊎ ((s ≡ warning) ⊎ (s ≡ firing))
  RuleStatus-cases ok = inl refl
  RuleStatus-cases warning = inr (inl refl)
  RuleStatus-cases firing = inr (inr refl)

  calm-IsOutcome :
      (s : RuleStatus)
      → is_firing r.current_status ≡ false
      → is_firing s ≡ false
      → IsOutcome lib r s db (calm lib r s db)
  unfolding calm is_firing
  calm-IsOutcome firing before after = absurd (ground arith)
  calm-IsOutcome ok before after = elim (RuleStatus-cases r.current_status) [
    | inl e ↦ subst (IsOutcome lib r ok db) (sym (rw e refl)) (calm_kept ok (sym e))
    | inr (inl e) ↦ subst (IsOutcome lib r ok db) (sym (rw e refl)) (calm_moved ok before after)
    | inr (inr e) ↦ absurd (ground arith)
  ]
  calm-IsOutcome warning before after = elim (RuleStatus-cases r.current_status) [
    | inl e ↦ subst (IsOutcome lib r warning db) (sym (rw e refl)) (calm_moved warning before after)
    | inr (inl e) ↦ subst (IsOutcome lib r warning db) (sym (rw e refl)) (calm_kept warning (sym e))
    | inr (inr e) ↦ absurd (ground arith)
  ]

  settle-IsOutcome :
      (s : RuleStatus) → is_firing s ≡ false → IsOutcome lib r s db (settle lib now r val s db)
  unfolding settle
  settle-IsOutcome s after = elim (Bool-cases (is_firing r.current_status)) [
    | inl e ↦ rw e (recover-IsOutcome s e after)
    | inr e ↦ rw e (calm-IsOutcome s e after)
  ]

  pub advance-IsOutcome :
      (j : Judgement lib) → IsOutcome lib r (level lib j) db (advance lib now r val j db)
  unfolding advance level
  advance-IsOutcome j = elim (Bool-cases j.fires) [
    | inl f ↦ elim (Bool-cases (is_firing r.current_status)) [
      | inl e ↦ rw (f, e) (keep_firing-IsOutcome lib r db a found now val w fits e)
      | inr e ↦ rw (f, e) (fire-IsOutcome lib r db a found now val w fits j.summary e)
    ]
    | inr f ↦ elim (Bool-cases j.warns) [
      | inl e ↦ rw (f, e) (settle-IsOutcome warning (unfold is_firing in refl))
      | inr e ↦ rw (f, e) (settle-IsOutcome ok (unfold is_firing in refl))
    ]
  ]
