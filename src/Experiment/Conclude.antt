-- ===== src/Experiment/Conclude.antt =====
-- What the users get once an experiment is concluded.
use mathlib.Core.Path.{subst}
use mathlib.Core.Option
use sightpane.Prelude.{
  ℕ, ◌<◌, ◌≡◌, ◌≢◌, refl, ap, sym, ◌∙◌, Bool, true, false, Option, none, some, List, [], ◌∷◌, ◌++◌,
  map, find, find-update_where, All, inl, inr, arith, Bool-cases,
}
use sightpane.Prelude.Text.{Text, text_eq, text_eq_iff, is_empty}
use sightpane.Flag.{FlagLib, Value, FlagVariant, FeatureFlag}
use sightpane.Flag.Filter.{matches_filter}
use sightpane.Flag.Evaluate.{Answer, off, on, variant, evaluate_flag}
use sightpane.Flag.Evaluate.Rollout.{evaluate_flag_iff}
use sightpane.Flag.Evaluate.Variants.{IsSplit, rollouts, evaluate_flag-IsShare, evaluate_flag-on}
use sightpane.Flag.Table.{FlagDb, Result, get_feature_flag, has_key, or_not_found}
use sightpane.Flag.Table as Flags
use sightpane.Experiment.{
  Experiment, ExperimentDb, done, get_experiment, winner_takes_all, roll_out, write_flag,
  conclude_found, conclude_experiment_winner,
}

module _ {A : Type 0} (P : A → Type 0) where
  All_middle : (xs ys : List A) (y : A) → All P (xs ++ y ∷ ys) → P y
  All_middle [] ys y a = a.0
  All_middle (x ∷ xs) ys y a = All_middle xs ys y a.1

module _ (winner : Text) where
  abbrev pub is_winner : FlagVariant → Bool
  is_winner v = text_eq v.key winner

  -- A variant with a share is the winner.
  abbrev Owns : FlagVariant → Type 0
  Owns v = 0 < rollouts (v ∷ []) → v.key ≡ winner

  all-IsSplit : (vs : List FlagVariant) → IsSplit (map (winner_takes_all winner) vs)
  unfolding winner_takes_all
  all-IsSplit [] = tt
  all-IsSplit (v ∷ vs) = (ground arith, all-IsSplit vs)

  all-Owns : (vs : List FlagVariant) → All Owns (map (winner_takes_all winner) vs)
  unfolding winner_takes_all rollouts
  all-Owns [] = tt
  all-Owns (v ∷ vs) = elim (Bool-cases (text_eq v.key winner)) [
    | inl e ↦ (λ h. (text_eq_iff v.key winner).0 e, all-Owns vs)
    | inr e ↦ (rw e (λ h. absurd (omega arith)), all-Owns vs)
  ]

  some_rollout :
      (vs : List FlagVariant) {v : FlagVariant}
      → find is_winner vs ≡ some v
      → 0 < rollouts (map (winner_takes_all winner) vs)
  unfolding find winner_takes_all rollouts
  some_rollout [] h = cc
  some_rollout (w ∷ vs) h = elim (Bool-cases (text_eq w.key winner)) [
    | inl e ↦ rw e (omega arith)
    | inr e ↦ rw e (omega (arith, some_rollout vs (rw e at h)))
  ]

  no_rollout :
      (vs : List FlagVariant)
      → find is_winner vs ≡ none
      → rollouts (map (winner_takes_all winner) vs) ≡ 0
  unfolding find winner_takes_all rollouts
  no_rollout [] h = refl
  no_rollout (w ∷ vs) h = elim (Bool-cases (text_eq w.key winner)) [
    | inl e ↦ absurd (ground arith)
    | inr e ↦ rw e (omega (arith, no_rollout vs (rw e at h)))
  ]

  -- What a flag serves whose only share is the winner's, if the winner is among its variants.
  abbrev pub winning : Option FlagVariant → Answer
  winning none = on
  winning (some v) = variant winner

module _ (lib : FlagLib) (user : Text) (properties : Text → Value lib.F lib.Any)
    (winner : Text) where
  module _ (f : FeatureFlag lib) where
    abbrev rolled : FeatureFlag lib
    rolled = roll_out lib (map (winner_takes_all winner) f.variants) f

    rolled_on :
        All (λ t. matches_filter lib t user properties ≡ true) f.filters
        → evaluate_flag lib rolled user properties ≢ off
    unfolding roll_out
    rolled_on matches =
        (evaluate_flag_iff lib rolled user properties).0.1
          (refl, matches, omega (arith, (evaluate_flag_iff lib rolled user properties).1))

    rolled_serves :
        (o : Option FlagVariant)
        → find (is_winner winner) f.variants ≡ o
        → All (λ t. matches_filter lib t user properties ≡ true) f.filters
        → evaluate_flag lib rolled user properties ≡ winning winner o
    unfolding roll_out
    rolled_serves none absent matches =
        evaluate_flag-on lib rolled user properties (all-IsSplit winner f.variants)
          (no_rollout winner f.variants absent) (rolled_on matches)
    rolled_serves (some v) present matches =
        let (key, served, share) =
          evaluate_flag-IsShare lib rolled user properties (all-IsSplit winner f.variants)
            (some_rollout winner f.variants present) (rolled_on matches) in
        let owns =
          All_middle (Owns winner) share.before share.after share.served
            (subst (All (Owns winner)) share.split (all-Owns winner f.variants)) in
        served ∙ ap variant (sym share.named ∙ owns (omega (arith, share.from, share.to)))

  module _ (project : ℕ) (key : Text) where
    get_found :
        (o : Option (FeatureFlag lib)) (f : FeatureFlag lib)
        → or_not_found lib o ≡ Flags.done f
        → o ≡ some f
    unfolding or_not_found
    get_found none f h = cc
    get_found (some g) f h = cc

    written :
        (f : FeatureFlag lib) (flags : FlagDb lib)
        → get_feature_flag lib project key flags ≡ Flags.done f
        → get_feature_flag lib project key (write_flag lib (Flags.done f) project key winner flags)
          ≡ Flags.done (rolled f)
    unfolding get_feature_flag write_flag
    written f flags h =
        let found = get_found (find (has_key lib project key) flags.flags) f h in
        ap (or_not_found lib) (
          find-update_where (has_key lib project key)
            (roll_out lib (map (winner_takes_all winner) f.variants)) flags.flags
            (λ x. unfold has_key roll_out in refl)
          ∙ ap (Option.map (roll_out lib (map (winner_takes_all winner) f.variants))) found)
        ∙ (unfold or_not_found roll_out in refl)

  -- Concluding an experiment whose flag is found by its key turns the flag on for every user whom all
  -- filters of the flag match: the flag that is then found by that key serves them the winner if one
  -- of its variants has that key, and otherwise no variant at all.
  pub conclude_serves_winner :
      (project id now : ℕ) (db db' : ExperimentDb lib) (e e' : Experiment) (f : FeatureFlag lib)
      → get_experiment lib project id db ≡ done e
      → is_empty e.feature_flag_key ≡ false
      → get_feature_flag lib e.project_id e.feature_flag_key db.flags ≡ Flags.done f
      → All (λ t. matches_filter lib t user properties ≡ true) f.filters
      → conclude_experiment_winner lib project id winner now db ≡ done (db', e')
      → (f' : FeatureFlag lib) × (get_feature_flag lib e.project_id e.feature_flag_key db'.flags
          ≡ Flags.done f')
        × (evaluate_flag lib f' user properties
            ≡ winning winner (find (is_winner winner) f.variants))
  unfolding conclude_experiment_winner conclude_found
  conclude_serves_winner project id now db db' e e' f found keyed flag matches c =
      let flags = write_flag lib (Flags.done f) e.project_id e.feature_flag_key winner db.flags in
      let same : flags ≡ db'.flags = ground arith in
      (
        rolled f,
        subst (λ d. get_feature_flag lib e.project_id e.feature_flag_key d ≡ Flags.done (rolled f))
            same (written e.project_id e.feature_flag_key f db.flags flag),
        rolled_serves f (find (is_winner winner) f.variants) refl matches,
      )
