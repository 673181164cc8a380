-- ===== src/Alert/Examples.antt =====
-- Alerts at concrete inputs.
use sightpane.Prelude.{
  ℕ, ◌*◌, ◌==◌, ◌≡◌, refl, Bool, true, false, [], ◌∷◌, arith, some, ltb, leb, length, keep, find,
}
use sightpane.Prelude.Int.{pos}
use sightpane.Prelude.Text.{Text, codes, text_eq, trim_space, is_empty}
use sightpane.Alert.{RateLib, AlertChannel, AlertRule, IssueEvent, AlertDb, done, failed}
use sightpane.Alert.Tables.{
  create_alert_channel, create_alert_rule, has_delivered_alert, last_alert_delivery,
}
use sightpane.Alert.Deliver.{Send}
use sightpane.Alert.Rates.{Measure, minute, cooldown_of, is_cooling, evaluate_rate_rules}
use sightpane.Alert.Rates.Cooldown.{cooldown_silent}
use sightpane.Alert.Worker.{event, tick, run}
use sightpane.Alert.Worker.Once.{tries, told_once}

-- Natural numbers for float64.
abbrev lib : RateLib
lib = record {
  lower = λ c. c;
  F = ℕ;
  is_positive = λ n. ltb 0 n;
  less_eq = leb;
  less = ltb;
  of_ℕ = λ n. n;
  ten = 10;
  nine_tenths = 1;
}

abbrev rule_of : Text → AlertRule lib
rule_of kind = record {
  id = 0;
  project_id = 7;
  name = [];
  kind = kind;
  params = record { threshold = 3; window_minutes = pos 0; cooldown_minutes = pos 20 };
  channel_ids = 1 ∷ 2 ∷ [];
  enabled = true;
}

abbrev with_rule : AlertRule lib → AlertDb lib → AlertDb lib
with_rule r db = elim (create_alert_rule r db) [ done (db', row) ↦ db' | failed e ↦ db ]

abbrev with_channel : AlertChannel → AlertDb lib → AlertDb lib
with_channel c db = elim (create_alert_channel c db) [ done (db', row) ↦ db' | failed e ↦ db ]

abbrev mail : AlertChannel
mail = record {
  id = 0;
  project_id = 7;
  name = [];
  kind = codes " email";
  target = codes "ops@example.com";
  secret = [];
}

-- Two channels; rule 1 tells regressions, rule 2 spikes of errors.
abbrev start : AlertDb lib
start = with_rule (rule_of (codes "rate_spike")) (
    with_rule (rule_of (codes "regression")) (
      with_channel mail (
        with_channel mail (record {
          channels = [];
          next_channel = 1;
          rules = [];
          next_rule = 1;
          deliveries = [];
        }))))

-- The second attempt fails.
abbrev flaky : Send
flaky = λ n c. not_one n
  where
    not_one : ℕ → Bool
    not_one n = elim (n == 1) [ true ↦ false | false ↦ true ]

abbrev back : IssueEvent
back = record { project_id = 7; issue_id = 5; fingerprint = codes "f"; kind = codes "regression" }

abbrev busy : Measure lib
busy = λ project window. some (record { errors = 40; sessions = 0; crash_free = 1 })

-- A regression, and a spike an hour later.
abbrev told : AlertDb lib
told = run flaky ((100, event back) ∷ (60 * minute, tick busy (7 ∷ [])) ∷ []) start

told_four : length told.deliveries ≡ 4
unfolding run find keep create_alert_rule text_eq trim_space create_alert_channel is_empty
    last_alert_delivery evaluate_rate_rules tries
told_four = refl

-- The second regression of the issue is not told.
told_once_example :
    tries 1 5 (run flaky ((70 * minute, event back) ∷ (80 * minute, tick busy (7 ∷ [])) ∷ []) told)
    ≡ tries 1 5 told
unfolding has_delivered_alert find run keep create_alert_rule text_eq trim_space
    create_alert_channel is_empty
told_once_example =
    told_once flaky 1 5 told ((70 * minute, event back) ∷ (80 * minute, tick busy (7 ∷ [])) ∷ [])
      refl

tries_two : tries 1 5 told ≡ 2
unfolding run find keep create_alert_rule text_eq trim_space create_alert_channel is_empty
    last_alert_delivery evaluate_rate_rules tries
tries_two = refl

cooldown_silent_example :
    keep
      (λ d. d.rule_id == 2)
      (evaluate_rate_rules lib flaky (79 * minute) busy (7 ∷ []) told).deliveries
    ≡ keep (λ d. d.rule_id == 2) told.deliveries
unfolding last_alert_delivery run keep create_alert_rule text_eq trim_space create_alert_channel
    is_empty find cooldown_of
cooldown_silent_example =
    cooldown_silent lib flaky busy 2 (60 * minute) 20 (79 * minute) (7 ∷ []) told refl
      ((λ e. omega arith), ((λ e. omega arith), tt)) (omega arith)

-- At the end of the cooldown it is heard again.
heard_again : length (evaluate_rate_rules lib flaky (80 * minute) busy (7 ∷ []) told).deliveries ≡ 6
unfolding run find keep create_alert_rule text_eq trim_space create_alert_channel is_empty
    last_alert_delivery evaluate_rate_rules tries
heard_again = refl

-- A cooldown of 200000000 minutes wraps to a negative one, under which the rule is heard at once.
abbrev forever : AlertRule lib
forever = record (rule_of (codes "rate_spike")) {
  params = record { threshold = 3; window_minutes = pos 0; cooldown_minutes = pos 200000000 };
}

wraps : is_cooling lib (some 5) (cooldown_of lib forever) 6 ≡ false
unfolding is_cooling cooldown_of
wraps = refl
