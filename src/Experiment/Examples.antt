-- ===== src/Experiment/Examples.antt =====
-- Experiments at concrete inputs.
use sightpane.Prelude.{
  ℕ, ◌+◌, ◌≡◌, ◌<◌, ◌==◌, refl, Bool, true, false, Option, none, some, List, [], ◌∷◌, arith, All,
  find, length, keep,
}
use sightpane.Prelude.Int.{pos}
use sightpane.Prelude.Text.{Text, codes, text_eq}
use sightpane.Flag.{FlagLib, FeatureFlag, Value, null}
use sightpane.Flag.Evaluate.{on, evaluate_flag}
use sightpane.Flag.Table.{FlagDb, get_feature_flag}
use sightpane.Flag.Table as Flags
use sightpane.Experiment.{
  ExperimentVariant, Experiment, ExperimentDb, done, get_experiment, create_experiment,
  conclude_experiment_winner,
}
use sightpane.Experiment.Conclude.{winning, is_winner, conclude_serves_winner}
use sightpane.Experiment.Results.{VariantResult, results_of, is_in}
use sightpane.Experiment.Results.Shares.{AddUp, results_of-AddUp}

-- A hash that is the first code point.
abbrev lib : FlagLib
lib = record {
  F = ℕ;
  Any = ℕ;
  lower = λ c. c;
  show = λ v. [];
  show_any = λ a. [];
  compile = λ p. none;
  parse_float = λ s. none;
  less = λ a b. false;
  less_eq = λ a b. false;
  sum256 = λ s. 0 ∷ 0 ∷ 0 ∷ length s ∷ [];
}

abbrev button : FeatureFlag lib
button = record {
  id = 4;
  project_id = 7;
  key = codes "button";
  name = [];
  description = [];
  enabled = false;
  rollout_percentage = pos 10;
  filters = [];
  variants =
      record { key = codes "control"; rollout = pos 50 }
      ∷ record { key = codes "test"; rollout = pos 50 }
      ∷ [];
}

abbrev start : ExperimentDb lib
start = record {
  experiments = [];
  next_id = 1;
  flags = record { flags = button ∷ []; next_id = 5 };
}

abbrev running : ExperimentDb lib
running =
    (create_experiment lib 7 (codes "Button") [] (codes "button") (codes "buy") none (pos 0) 50
      start).0

abbrev trial : Experiment
trial =
    (create_experiment lib 7 (codes "Button") [] (codes "button") (codes "buy") none (pos 0) 50
      start).1

abbrev no_properties : Text → Value ℕ ℕ
no_properties property = null

abbrev concluded : Text → ExperimentDb lib
concluded winner = elim (conclude_experiment_winner lib 7 1 winner 90 running) [
  | done (db, e) ↦ db
  | _ ↦ running
]

abbrev ended : Text → Experiment
ended winner = elim (conclude_experiment_winner lib 7 1 winner 90 running) [
  | done (db, e) ↦ e
  | _ ↦ trial
]

conclude_serves_winner_example :
    (f : FeatureFlag lib) × (get_feature_flag lib 7
        (codes "button")
        (concluded (codes "test")).flags
      ≡ Flags.done f)
    × (evaluate_flag lib f (codes "ann") no_properties
        ≡ winning (codes "test") (find (is_winner (codes "test")) button.variants))
unfolding create_experiment conclude_experiment_winner get_experiment get_feature_flag find text_eq
conclude_serves_winner_example =
    conclude_serves_winner lib (codes "ann") no_properties (codes "test") 7 1 90 running
      (concluded (codes "test")) trial (ended (codes "test")) button refl
      (unfold sightpane.Prelude.Text.is_empty in refl) refl tt refl

-- A winner that is no variant: the flag is on, and serves no variant.
typo :
    (f : FeatureFlag lib) × (get_feature_flag lib 7
        (codes "button")
        (concluded (codes "tset")).flags
      ≡ Flags.done f)
    × (evaluate_flag lib f (codes "ann") no_properties ≡ on)
unfolding create_experiment conclude_experiment_winner get_experiment get_feature_flag find text_eq
typo =
    conclude_serves_winner lib (codes "ann") no_properties (codes "tset") 7 1 90 running
      (concluded (codes "tset")) trial (ended (codes "tset")) button refl
      (unfold sightpane.Prelude.Text.is_empty in refl) refl tt refl

-- Without variants the first user is a panic.
panic : results_of lib button [] (codes "ann" ∷ []) [] ≡ none
unfolding results_of
panic = refl

abbrev control : ExperimentVariant
control = record { key = codes "control"; name = [] }

abbrev test : ExperimentVariant
test = record { key = codes "test"; name = [] }

results_of-AddUp_example :
    (rows : List VariantResult) × (results_of lib
        (record button { enabled = true; rollout_percentage = pos 100 })
        (control ∷ test ∷ [])
        (codes "ann" ∷ codes "bob" ∷ [])
        (codes "bob" ∷ [])
      ≡ some rows)
    × AddUp rows 2
        (length (keep (λ user. is_in user (codes "bob" ∷ [])) (codes "ann" ∷ codes "bob" ∷ [])))
results_of-AddUp_example =
    results_of-AddUp lib (record button { enabled = true; rollout_percentage = pos 100 })
      (codes "ann" ∷ codes "bob" ∷ []) (codes "bob" ∷ []) control (test ∷ [])
      (unfold text_eq in ((refl, tt), (tt, tt)))
