-- ===== src/MetricAlert/Examples.antt =====
-- Metric alerts at concrete inputs.
use sightpane.Prelude.{none, ℕ, ◌≡◌, refl, true, some, [], ◌∷◌, ltb, leb, ◌/◌, if◌then◌else◌, find}
use sightpane.Prelude.Int.{pos}
use sightpane.Prelude.Text.{codes, is_empty, trim_space, text_eq}
use sightpane.MetricAlert.{FloatLib, MetricAlertRule, AlertDb, error_count, gt, ok, firing}
use sightpane.MetricAlert.Rules.{RuleRequest, done, create_metric_alert_rule}
use sightpane.MetricAlert.Incidents.{has_rule_id}
use sightpane.MetricAlert.Worker.{Reading, judge, evaluate_rule, evaluate_all}
use sightpane.MetricAlert.Agreed.{IsAgreed}
use sightpane.MetricAlert.Agreed.Rule.{IsOutcome, level}
use sightpane.MetricAlert.Agreed.Runs.{evaluate_rule-IsOutcome}
use sightpane.MetricAlert.Agreed.Reached.{here, then_, create, evaluate, Reach-IsAgreed}

-- Numbers for floats.
abbrev whole : FloatLib
whole = record {
  F = ℕ;
  less = λ a b. ltb a b;
  less_eq = λ a b. leb a b;
  div = λ a b. a / b;
  max = λ a b. if leb a b then b else a;
  of = λ n. n;
  tenth = 0;
  fixed = λ n x. [];
  show_int = λ n. [];
  numeric = λ x. some x;
}

abbrev crashes : RuleRequest whole
crashes = record {
  id = 0;
  project_id = 7;
  name = codes "Crashes ";
  metric_type = codes "error_count";
  target_filter = [];
  comparison_operator = codes "gt";
  critical_threshold = 10;
  warning_threshold = some 5;
  window_minutes = pos 0;
  channel_ids = [];
  is_active = true;
}

abbrev crashes_rule : MetricAlertRule whole
crashes_rule = record {
  id = 1;
  project_id = 7;
  name = codes "Crashes";
  metric_type = error_count;
  target_filter = [];
  comparison_operator = gt;
  critical_threshold = 10;
  warning_threshold = some 5;
  window_minutes = 5;
  channel_ids = [];
  is_active = true;
  current_status = ok;
}

abbrev no_rules : AlertDb whole
no_rules = record { rules = []; incidents = []; next_rule = 1; next_incident = 1; notices = [] }

abbrev one_rule : AlertDb whole
one_rule = record {
  rules = crashes_rule ∷ [];
  incidents = [];
  next_rule = 2;
  next_incident = 1;
  notices = [];
}

one_created : create_metric_alert_rule whole crashes no_rules ≡ done (one_rule, 1)
unfolding create_metric_alert_rule is_empty trim_space text_eq
one_created = refl

no_rules-IsAgreed : IsAgreed whole no_rules
no_rules-IsAgreed = record {
  statuses = tt;
  rule_ids = tt;
  rules_below = tt;
  incident_ids = tt;
  incidents_below = tt;
  owners = tt;
}

-- Every rule counts 12 errors.
abbrev twelve : MetricAlertRule whole → Reading whole
twelve r = record { value = some 12; baseline = 0 }

Reach-IsAgreed_example : IsAgreed whole (evaluate_all whole 900 twelve one_rule)
Reach-IsAgreed_example =
    Reach-IsAgreed whole no_rules-IsAgreed (
      then_ (then_ here (create crashes one_created))
        (evaluate 900 twelve (λ r val e. (val, refl))))

one_rule-IsAgreed : IsAgreed whole one_rule
one_rule-IsAgreed = Reach-IsAgreed whole no_rules-IsAgreed (then_ here (create crashes one_created))

one_found : find (has_rule_id whole 1) one_rule.rules ≡ some crashes_rule
unfolding find has_rule_id
one_found = refl

evaluate_rule-IsOutcome_example :
    IsOutcome whole crashes_rule
      (level whole (judge whole crashes_rule 12 0))
      one_rule
      (evaluate_rule whole 900 crashes_rule (record { value = some 12; baseline = 0 }) one_rule)
evaluate_rule-IsOutcome_example =
    evaluate_rule-IsOutcome whole 900 crashes_rule 0 12 12 one_rule one_rule-IsAgreed one_found refl

-- No value fits the column of an incident.
abbrev full : FloatLib
full = record whole { numeric = λ x. none }

abbrev full_rule : MetricAlertRule full
full_rule = record {
  id = 1;
  project_id = 7;
  name = codes "Crashes";
  metric_type = error_count;
  target_filter = [];
  comparison_operator = gt;
  critical_threshold = 10;
  warning_threshold = some 5;
  window_minutes = 5;
  channel_ids = [];
  is_active = true;
  current_status = ok;
}

abbrev full_db : AlertDb full
full_db = record {
  rules = full_rule ∷ [];
  incidents = [];
  next_rule = 2;
  next_incident = 1;
  notices = [];
}

-- The rule is then firing with no incident and no notice.
overflow_silent :
    evaluate_rule full 900 full_rule (record { value = some 12; baseline = 0 }) full_db
    ≡ record full_db { rules = record full_rule { current_status = firing } ∷ [] }
unfolding evaluate_rule judge sightpane.MetricAlert.is_firing
    sightpane.MetricAlert.Incidents.create_metric_incident
    sightpane.MetricAlert.Incidents.update_metric_rule_status sightpane.Prelude.update_where
overflow_silent = refl
