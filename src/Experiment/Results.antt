-- ===== src/Experiment/Results.antt =====
-- The counts of CalculateExperimentResults (internal/store/experiments.go). The users and the users
-- who converted are what the two queries return; the rates and the significance, which are float64,
-- are left out.
pub mod Shares
use sightpane.Prelude.{
  ℕ, zero, suc, ◌+◌, ◌/◌, ◌==◌, Bool, true, false, ◌||◌, not, Option, none, some, List, [], ◌∷◌,
  map, length, if◌then◌else◌,
}
use sightpane.Prelude.Int.{ℤ, pos}
use sightpane.Prelude.Text.{Text, text_eq, is_empty}
use sightpane.Flag.{FlagLib, Value, null, FlagVariant, FeatureFlag}
use sightpane.Flag.Evaluate.{Answer, off, on, variant, evaluate_flag}
use sightpane.Flag.Table.{Result, get_feature_flag, lookup}
use sightpane.Flag.Table as Flags
use sightpane.Experiment.{ExperimentVariant, Experiment, ExperimentDb}

-- A map from keys to counts; the count put last stands first.
abbrev pub Counts : Type 0
Counts = List (Text × ℕ)

or_zero : Option ℕ → ℕ
or_zero none = 0
or_zero (some n) = n

is_some : Option ℕ → Bool
is_some none = false
is_some (some n) = true

unfoldable pub count_of : Text → Counts → ℕ
unfolding or_zero lookup
count_of key m = or_zero (lookup key m)

unfoldable pub has_count : Text → Counts → Bool
unfolding is_some lookup
has_count key m = is_some (lookup key m)

-- m[key]++
unfoldable pub bump : Text → Counts → Counts
unfolding count_of
bump key m = (key, count_of key m + 1) ∷ m

-- m[v.Key] = 0 for every variant.
zeroes : List ExperimentVariant → Counts → Counts
zeroes [] m = m
zeroes (v ∷ vs) m = zeroes vs ((v.key, 0) ∷ m)

pub is_in : Text → List Text → Bool
is_in user [] = false
is_in user (u ∷ us) = text_eq u user || is_in user us

key_of_answer : Text → Answer → Text
key_of_answer first off = first
key_of_answer first on = first
key_of_answer first (variant key) = if is_empty key then first else key

pub record Tally : Type 0 where
  pub participants : Counts
  pub conversions : Counts

pub record VariantResult : Type 0 where
  pub key : Text
  pub name : Text
  pub participants : ℕ
  pub conversions : ℕ

-- One row of the results.
unfoldable pub row_of : Tally → ExperimentVariant → VariantResult
unfolding count_of
row_of t v = record {
  key = v.key;
  name = v.name;
  participants = count_of v.key t.participants;
  conversions = count_of v.key t.conversions;
}

module _ (lib : FlagLib) where
  -- The flag that stands in where none has the key.
  mock : Experiment → FeatureFlag lib
  mock e = record {
    id = 0;
    project_id = 0;
    key = e.feature_flag_key;
    name = [];
    description = [];
    enabled = true;
    rollout_percentage = pos 100;
    filters = [];
    variants =
        map
          (λ v.
            let share : FlagVariant = record {
              key = v.key;
              rollout = pos (100 / length e.variants);
            } in
            share)
          e.variants;
  }

  flag_of : Result (FeatureFlag lib) → Experiment → FeatureFlag lib
  unfolding mock
  flag_of (Flags.done f) e = f
  flag_of (Flags.failed x) e = mock e

  module _ (flag : FeatureFlag lib) (converted : List Text) (first : Text) where
    -- The variant that a user is counted under.
    unfoldable pub place : Text → Counts → Text
    unfolding key_of_answer has_count
    place user m =
        let key = key_of_answer first (evaluate_flag lib flag user (λ property. null)) in
        if has_count key m then key else first

    unfoldable pub count_user : Text → Tally → Tally
    unfolding place bump is_in
    count_user user t =
        let key = place user t.participants in
        record {
          participants = bump key t.participants;
          conversions = if is_in user converted then bump key t.conversions else t.conversions;
        }

    unfoldable pub count_users : List Text → Tally → Tally
    unfolding count_user
    count_users [] t = t
    count_users (user ∷ users) t = count_users users (count_user user t)

  -- none is the panic of exp.Variants[0] on an experiment without variants.
  unfoldable pub results_of :
      FeatureFlag lib → List ExperimentVariant → List Text → List Text → Option (List VariantResult)
  unfolding zeroes count_users row_of
  results_of flag [] [] converted = some []
  results_of flag [] (user ∷ users) converted = none
  results_of flag (v ∷ vs) users converted =
      let start : Tally = record {
        participants = zeroes (v ∷ vs) [];
        conversions = zeroes (v ∷ vs) [];
      } in
      some (map (row_of (count_users flag converted v.key users start)) (v ∷ vs))

  -- The rows, for the users that started a session and those that converted in the window.
  unfoldable pub calculate_experiment_results :
      Experiment → List Text → List Text → ExperimentDb lib → Option (List VariantResult)
  unfolding results_of flag_of
  calculate_experiment_results e users converted db =
      results_of (flag_of (get_feature_flag lib e.project_id e.feature_flag_key db.flags) e)
        e.variants users converted
