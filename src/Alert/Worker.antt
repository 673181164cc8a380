-- ===== src/Alert/Worker.antt =====
-- The worker of the notifier (internal/alert/notifier.go): it takes an event from its queue or ticks.
pub mod Once
use sightpane.Prelude.{ℕ, List, [], ◌∷◌}
use sightpane.Alert.{RateLib, IssueEvent, AlertDb}
use sightpane.Alert.Deliver.{Send, handle_issue_event}
use sightpane.Alert.Rates.{Measure, evaluate_rate_rules}

pub data Input (lib : RateLib) : Type 0 where
  event : IssueEvent → Input lib
  tick : Measure lib → List ℕ → Input lib

module _ {lib : RateLib} (send : Send) where
  unfoldable pub step : ℕ → Input lib → AlertDb lib → AlertDb lib
  unfolding handle_issue_event evaluate_rate_rules
  step now (event ev) db = handle_issue_event send now ev db
  step now (tick measure projects) db = evaluate_rate_rules lib send now measure projects db

  -- Inputs at their instants.
  unfoldable pub run : List (ℕ × Input lib) → AlertDb lib → AlertDb lib
  unfolding step
  run [] db = db
  run ((now, i) ∷ is) db = run is (step now i db)
