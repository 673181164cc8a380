-- ===== src/Flag/Examples.antt =====
-- Flags at concrete inputs.
use sightpane.Prelude.{
  ℕ, ◌+◌, ◌≡◌, ◌≢◌, ◌↔◌, ◌<◌, refl, true, false, ◌&&◌, none, some, [], ◌∷◌, All, ltb, leb, find,
  if◌then◌else◌,
}
use sightpane.Prelude.Int.{pos, ◌≤ℤ◌}
use sightpane.Prelude.Text.{Text, codes, text_eq}
use sightpane.Flag.{Value, number, FlagLib, FlagFilter, FeatureFlag}
use sightpane.Flag.Filter.{matches_filter, read_operator}
use sightpane.Flag.Evaluate.{off, bucket, evaluate_flag}
use sightpane.Flag.Evaluate.Rollout.{evaluate_flag_iff}
use sightpane.Flag.Table.{
  FlagDb, done, failed, clamp, create_feature_flag, get_feature_flag, evaluate_project_flags,
  lookup,
}
use sightpane.Flag.Table.Stored.{IsSound, create, here, then_, Reach-IsSound}
use sightpane.Flag.Table.Project.{lookup-evaluate_project_flags}

-- Numbers for floats, and a text as its own hash.
abbrev plain : FlagLib
plain = record {
  F = ℕ;
  Any = Unit;
  lower = λ c. if leb 65 c && leb c 90 then c + 32 else c;
  show = λ v. [];
  show_any = λ a. [];
  compile = λ pattern. none;
  parse_float = λ t. none;
  less = λ a b. ltb a b;
  less_eq = λ a b. leb a b;
  sum256 = λ t. t;
}

abbrev age : Text → Value plain.F plain.Any
age property = number 30

-- An operator in capitals is accepted by the outer switch and not by the inner one.
capitals_refused :
    (matches_filter plain
        (record { property = codes "age"; operator = codes "gt"; value = number 20 })
        []
        age
      ≡ true)
    × (matches_filter plain
          (record { property = codes "age"; operator = codes "GT"; value = number 20 })
          []
          age
        ≡ false)
unfolding matches_filter text_eq read_operator
capitals_refused = (refl, refl)

abbrev adults : FlagFilter plain
adults = record { property = codes "age"; operator = codes "gte"; value = number 18 }

abbrev color : FeatureFlag plain
color = record {
  id = 1;
  project_id = 7;
  key = codes "color";
  name = codes "Color";
  description = [];
  enabled = true;
  rollout_percentage = pos 90;
  filters = adults ∷ [];
  variants =
      record { key = codes "red"; rollout = pos 1 }
      ∷ record { key = codes "blue"; rollout = pos 3 }
      ∷ [];
}

evaluate_flag_iff_example :
    ((evaluate_flag plain color (codes "ann") age ≢ off) ↔ (
      (color.enabled ≡ true)
      × All (λ f. matches_filter plain f (codes "ann") age ≡ true) color.filters
      × (pos (bucket plain color (codes "ann") + 1) ≤ℤ color.rollout_percentage)))
    × (bucket plain color (codes "ann") < 100)
evaluate_flag_iff_example = evaluate_flag_iff plain color (codes "ann") age

abbrev no_flags : FlagDb plain
no_flags = record { flags = []; next_id = 1 }

abbrev one_flag : FlagDb plain
one_flag = record { flags = record color { rollout_percentage = pos 100 } ∷ []; next_id = 2 }

one_created :
    create_feature_flag plain (record color { rollout_percentage = pos 140 }) no_flags
    ≡ done (one_flag, record color { rollout_percentage = pos 100 })
unfolding create_feature_flag find clamp
one_created = refl

Reach-IsSound_example : IsSound plain one_flag
Reach-IsSound_example =
    Reach-IsSound plain {a = no_flags}
      (record { percentages = tt; keys = tt; ids = tt; below = tt })
      (then_ here (create (record color { rollout_percentage = pos 140 }) one_created))

lookup-evaluate_project_flags_example :
    lookup (codes "color") (evaluate_project_flags plain 7 (codes "ann") age one_flag)
    ≡ elim (get_feature_flag plain 7 (codes "color") one_flag) [
      | done f ↦ some (evaluate_flag plain f (codes "ann") age)
      | failed e ↦ none
    ]
lookup-evaluate_project_flags_example =
    lookup-evaluate_project_flags plain (codes "ann") age 7 (codes "color") one_flag (tt, tt)
