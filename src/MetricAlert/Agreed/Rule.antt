-- ===== src/MetricAlert/Agreed/Rule.antt =====
-- One evaluation of a rule.
use mathlib.Core.Option
use sightpane.Prelude.{
  ℕ, ◌<◌, ◌≡◌, ◌==◌, refl, ap, ◌∙◌, sym, Bool, true, false, some, List, [], ◌∷◌, ◌++◌, All,
  All-find, All-mono, All-update_where, HasUnique, HasUnique-update_where, find, find-update_where,
  find-update_where_ne, update_where, arith, if◌then◌else◌, Bool-cases, inl, inr,
}
use sightpane.MetricAlert.{
  FloatLib, MetricAlertRule, MetricAlertIncident, Notice, AlertDb, RuleStatus, ok, warning, firing,
  is_firing,
}
use sightpane.MetricAlert.Incidents.{has_rule_id, set_status}
use sightpane.MetricAlert.Worker.{Judgement}
use sightpane.MetricAlert.Agreed.{IsAgreed, AgreesWith, open_count, expected_open}

-- What the notifier is to hear when a rule moves from one status to another: nothing, or one notice
-- after the old ones.
unfoldable pub notified : Bool → Bool → ℕ → ℕ → List Notice → List Notice
notified true true rule i old = old
notified false false rule i old = old
notified false true rule i old =
    old ++ record { rule_id = rule; incident_id = i; is_resolved = false } ∷ []
notified true false rule i old =
    old ++ record { rule_id = rule; incident_id = i; is_resolved = true } ∷ []

module _ (lib : FloatLib) where
  -- The status that a judgement calls for.
  unfoldable pub level : Judgement lib → RuleStatus
  level j = if j.fires then firing else if j.warns then warning else ok

  pub record IsOutcome (r : MetricAlertRule lib) (s : RuleStatus) (db db' : AlertDb lib)
      : Type 0 where
    pub agreed : IsAgreed lib db'
    pub row : find (has_rule_id lib r.id) db'.rules ≡ some (set_status lib s r)
    pub others :
        (b : ℕ)
        → (r.id == b) ≡ false
        → find (has_rule_id lib b) db'.rules ≡ find (has_rule_id lib b) db.rules
    pub notices :
        (i : ℕ) × (db'.notices
          ≡ notified (is_firing r.current_status) (is_firing s) r.id i db.notices)

  -- The incidents after a step: the counts of the other rules, and the ids.
  pub record IsStep (r : MetricAlertRule lib) (s : RuleStatus) (db : AlertDb lib)
      (is : List (MetricAlertIncident lib)) (next : ℕ) : Type 0 where
    pub own : open_count lib r.id is ≡ expected_open s
    pub counts : (b : ℕ) → (r.id == b) ≡ false → open_count lib b is ≡ open_count lib b db.incidents
    pub ids : HasUnique (λ i. i.id) is
    pub below : All (λ i. i.id < next) is
    pub owned : All (λ i. i.rule_id < db.next_rule) is

  module _ (r : MetricAlertRule lib) (db : AlertDb lib) (a : IsAgreed lib db)
      (found : find (has_rule_id lib r.id) db.rules ≡ some r) where
    moved_statuses :
        (s : RuleStatus) (is : List (MetricAlertIncident lib)) (next : ℕ)
        → IsStep r s db is next
        → All (AgreesWith lib is) (update_where (has_rule_id lib r.id) (set_status lib s) db.rules)
    moved_statuses s is next h =
        All-update_where (AgreesWith lib db.incidents) (AgreesWith lib is) (has_rule_id lib r.id)
          (set_status lib s) db.rules
          (λ q k e.
            let same : q.id ≡ r.id = unfold has_rule_id in ground arith in
            unfold set_status in rw same h.own)
          (λ q k e.
            let other : (r.id == q.id) ≡ false = unfold has_rule_id in ground arith in
            h.counts q.id other ∙ k)
          a.statuses

    pub moved-IsOutcome :
        (s : RuleStatus) (is : List (MetricAlertIncident lib)) (next i : ℕ) (ns : List Notice)
        → ns ≡ notified (is_firing r.current_status) (is_firing s) r.id i db.notices
        → IsStep r s db is next
        → IsOutcome r s db (record {
          rules = update_where (has_rule_id lib r.id) (set_status lib s) db.rules;
          incidents = is;
          next_rule = db.next_rule;
          next_incident = next;
          notices = ns;
        })
    unfolding set_status has_rule_id
    moved-IsOutcome s is next i ns sent h = record {
      agreed = record {
        statuses = moved_statuses s is next h;
        rule_ids =
            HasUnique-update_where (λ q. q.id) (has_rule_id lib r.id) (set_status lib s) db.rules
              (λ q. refl) a.rule_ids;
        rules_below =
            All-update_where (λ q. q.id < db.next_rule) (λ q. q.id < db.next_rule)
              (has_rule_id lib r.id) (set_status lib s) db.rules (λ q k _. k) (λ q k _. k)
              a.rules_below;
        incident_ids = h.ids;
        incidents_below = h.below;
        owners = h.owned;
      };
      row =
          find-update_where (has_rule_id lib r.id) (set_status lib s) db.rules (λ q. refl)
          ∙ ap (Option.map (set_status lib s)) found;
      others = λ b e.
          find-update_where_ne (has_rule_id lib b) (has_rule_id lib r.id) (set_status lib s)
            db.rules (λ q k. (ground arith, ground arith));
      notices = (i, sent);
    }

    pub own_before : open_count lib r.id db.incidents ≡ expected_open r.current_status
    own_before =
        All-find (AgreesWith lib db.incidents) (has_rule_id lib r.id) db.rules a.statuses found

    quiet : (b : Bool) → db.notices ≡ notified b b r.id 0 db.notices
    unfolding notified
    quiet true = refl
    quiet false = refl

    pub kept-IsOutcome :
        (s : RuleStatus) (is : List (MetricAlertIncident lib))
        → s ≡ r.current_status
        → IsStep r s db is db.next_incident
        → IsOutcome r s db (record db { incidents = is })
    unfolding set_status
    kept-IsOutcome s is e h = record {
      agreed = record {
        statuses =
            All-mono (AgreesWith lib db.incidents) (AgreesWith lib is) db.rules
              (λ q k. elim (Bool-cases (r.id == q.id)) [
                | inl same ↦
                    let id : r.id ≡ q.id = ground arith in
                    let before : open_count lib r.id db.incidents ≡ open_count lib r.id is =
                      own_before ∙ ap expected_open (sym e) ∙ sym h.own in
                    rw (← id) (sym before ∙ rw id k)
                | inr other ↦ h.counts q.id other ∙ k
              ])
              a.statuses;
        rule_ids = a.rule_ids;
        rules_below = a.rules_below;
        incident_ids = h.ids;
        incidents_below = h.below;
        owners = h.owned;
      };
      row = found ∙ ap (λ t. some (record r { current_status = t })) (sym e);
      others = λ b k. refl;
      notices = (0, rw e (quiet (is_firing r.current_status)));
    }
