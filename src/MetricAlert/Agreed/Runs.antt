-- ===== src/MetricAlert/Agreed/Runs.antt =====
-- The worker's runs and the operations on rules, in any order.
use sightpane.Prelude.{
  ℕ, ◌≡◌, ◌==◌, refl, ◌∙◌, false, Option, none, some, List, [], ◌∷◌, All, All-mono, All-keep,
  All-both, HasUnique, HasUnique-keep, find, keep, arith,
}
use sightpane.MetricAlert.{FloatLib, MetricAlertRule, AlertDb}
use sightpane.MetricAlert.Rules.{list_all_active_metric_alert_rules}
use sightpane.MetricAlert.Incidents.{has_rule_id}
use sightpane.MetricAlert.Worker.{Reading, judge, evaluate_rule, evaluate_each, evaluate_all}
use sightpane.MetricAlert.Agreed.{IsAgreed}
use sightpane.MetricAlert.Agreed.Rule.{IsOutcome, level}
use sightpane.MetricAlert.Agreed.Steps.{advance-IsOutcome}

module _ (lib : FloatLib) where
  -- In agreed tables, evaluating a rule on a value that fits its column sets the status that the
  -- judgement calls for, leaves every other rule as it is and the tables agreed, and sends one notice
  -- exactly if the rule starts or stops firing.
  pub evaluate_rule-IsOutcome :
      (now : ℕ) (r : MetricAlertRule lib) (base val w : lib.F) (db : AlertDb lib)
      → IsAgreed lib db
      → find (has_rule_id lib r.id) db.rules ≡ some r
      → lib.numeric val ≡ some w
      → IsOutcome lib r
          (level lib (judge lib r val base))
          db
          (evaluate_rule lib now r (record { value = some val; baseline = base }) db)
  unfolding evaluate_rule
  evaluate_rule-IsOutcome now r base val w db a found fits =
      advance-IsOutcome lib r db a found now val w fits (judge lib r val base)

  -- Every value read fits the column of an incident.
  abbrev pub Fits : (MetricAlertRule lib → Reading lib) → Type 0
  Fits read =
      (r : MetricAlertRule lib) (val : lib.F)
      → (read r).value ≡ some val
      → (w : lib.F) × (lib.numeric val ≡ some w)

  -- The rows listed are those in the table.
  abbrev IsFresh : List (MetricAlertRule lib) → AlertDb lib → Type 0
  IsFresh rs db = All (λ r. find (has_rule_id lib r.id) db.rules ≡ some r) rs

  -- What the evaluation of one rule of a list does for the rest of the list.
  evaluate_rule-rest :
      (now : ℕ) (r : MetricAlertRule lib) (o : Option lib.F) (base : lib.F)
      (rs : List (MetricAlertRule lib)) (db : AlertDb lib)
      → ((val : lib.F) → o ≡ some val → (w : lib.F) × (lib.numeric val ≡ some w))
      → IsAgreed lib db
      → find (has_rule_id lib r.id) db.rules ≡ some r
      → All (λ q. (q.id == r.id) ≡ false) rs
      → IsFresh rs db
      → IsAgreed lib (evaluate_rule lib now r (record { value = o; baseline = base }) db)
        × IsFresh rs (evaluate_rule lib now r (record { value = o; baseline = base }) db)
  unfolding evaluate_rule
  evaluate_rule-rest now r none base rs db fits a found u fresh = (a, fresh)
  evaluate_rule-rest now r (some val) base rs db fits a found u fresh =
      let (w, fit) = fits val refl in
      let out = evaluate_rule-IsOutcome now r base val w db a found fit in
      (
        out.agreed,
        All-mono (λ q. ((q.id == r.id) ≡ false) × (find (has_rule_id lib q.id) db.rules ≡ some q)) _
            rs
            (λ q (k, e).
              let other : (r.id == q.id) ≡ false = ground arith in out.others q.id other ∙ e)
            (All-both (λ q. (q.id == r.id) ≡ false) _ rs u fresh),
      )

  evaluate_each-IsAgreed :
      (now : ℕ) (read : MetricAlertRule lib → Reading lib) (rs : List (MetricAlertRule lib))
      (db : AlertDb lib)
      → Fits read
      → HasUnique (λ r. r.id) rs
      → IsFresh rs db
      → IsAgreed lib db
      → IsAgreed lib (evaluate_each lib now read rs db)
  unfolding evaluate_each
  evaluate_each-IsAgreed now read [] db fits u fresh a = a
  evaluate_each-IsAgreed now read (r ∷ rs) db fits (u, us) (found, fresh) a =
      let (a', fresh') =
        evaluate_rule-rest now r (read r).value (read r).baseline rs db (fits r) a found u fresh in
      evaluate_each-IsAgreed now read rs (evaluate_rule lib now r (read r) db) fits us fresh' a'

  -- Rows with distinct ids are found by them.
  rows-IsFresh :
      (rs : List (MetricAlertRule lib))
      → HasUnique (λ r. r.id) rs
      → All (λ r. find (has_rule_id lib r.id) rs ≡ some r) rs
  unfolding find has_rule_id
  rows-IsFresh [] u = tt
  rows-IsFresh (r ∷ rs) (u, us) = (
    ground arith,
    All-mono (λ q. ((q.id == r.id) ≡ false) × (find (has_rule_id lib q.id) rs ≡ some q)) _ rs
        (λ q (k, e). let other : (r.id == q.id) ≡ false = ground arith in rw other e)
        (All-both (λ q. (q.id == r.id) ≡ false) _ rs u (rows-IsFresh rs us)),
  )

  pub evaluate_all-IsAgreed :
      (now : ℕ) (read : MetricAlertRule lib → Reading lib) (db : AlertDb lib)
      → Fits read
      → IsAgreed lib db
      → IsAgreed lib (evaluate_all lib now read db)
  unfolding evaluate_all list_all_active_metric_alert_rules
  evaluate_all-IsAgreed now read db fits a =
      evaluate_each-IsAgreed now read (keep (λ r. r.is_active) db.rules) db fits
        (HasUnique-keep (λ r. r.id) (λ r. r.is_active) db.rules a.rule_ids)
        (All-keep (λ r. find (has_rule_id lib r.id) db.rules ≡ some r) (λ r. r.is_active) db.rules
          (rows-IsFresh db.rules a.rule_ids))
        a
