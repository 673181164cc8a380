-- ===== src/MetricAlert/Agreed/Reached.antt =====
-- The worker's runs and the operations on rules, in any order.
use sightpane.Prelude.{ℕ, ◌≡◌, find}
use sightpane.MetricAlert.{FloatLib, MetricAlertRule, AlertDb}
use sightpane.MetricAlert.Rules.{
  done, RuleRequest, create_metric_alert_rule, update_metric_alert_rule, delete_metric_alert_rule,
  validated, is_rule,
}
use sightpane.MetricAlert.Worker.{Reading, evaluate_all}
use sightpane.MetricAlert.Agreed.{IsAgreed}
use sightpane.MetricAlert.Agreed.Runs.{Fits, evaluate_all-IsAgreed}
use sightpane.MetricAlert.Agreed.Edits.{
  insert_rule-IsAgreed, write_rule-IsAgreed, delete_found-IsAgreed,
}

module _ (lib : FloatLib) where
  pub data Step : AlertDb lib → AlertDb lib → Type 0 where
    create :
        {db db' : AlertDb lib} {id : ℕ} (r : RuleRequest lib)
        → create_metric_alert_rule lib r db ≡ done (db', id)
        → Step db db'
    update :
        {db db' : AlertDb lib} (r : RuleRequest lib)
        → update_metric_alert_rule lib r db ≡ done db'
        → Step db db'
    delete :
        {db db' : AlertDb lib} (project id : ℕ)
        → delete_metric_alert_rule lib project id db ≡ done db'
        → Step db db'
    evaluate :
        {db : AlertDb lib} (now : ℕ) (read : MetricAlertRule lib → Reading lib)
        → Fits lib read
        → Step db (evaluate_all lib now read db)

  pub data Reach (a : AlertDb lib) : AlertDb lib → Type 0 where
    here : Reach a a
    then_ : {b c : AlertDb lib} → Reach a b → Step b c → Reach a c

  Step-IsAgreed : {db db' : AlertDb lib} → Step db db' → IsAgreed lib db → IsAgreed lib db'
  unfolding create_metric_alert_rule update_metric_alert_rule delete_metric_alert_rule
  Step-IsAgreed {db} {db'} (create {id = id} r e) a =
      insert_rule-IsAgreed lib (validated lib r) db db' id e a
  Step-IsAgreed {db} {db'} (update r e) a =
      write_rule-IsAgreed lib (validated lib r) (find (is_rule lib r.project_id r.id) db.rules) db
        db' e a
  Step-IsAgreed {db} {db'} (delete project id e) a = delete_found-IsAgreed lib project id db db' e a
  Step-IsAgreed {db} (evaluate now read fits) a = evaluate_all-IsAgreed lib now read db fits a

  -- From agreed tables, whatever rules are created, updated and deleted between runs of the worker, if every value that
  -- the worker reads fits the column of an incident, a rule is firing exactly while one incident of
  -- it is open, and no other rule has an open incident.
  pub Reach-IsAgreed : {a b : AlertDb lib} → IsAgreed lib a → Reach a b → IsAgreed lib b
  Reach-IsAgreed k here = k
  Reach-IsAgreed k (then_ r s) = Step-IsAgreed s (Reach-IsAgreed k r)
