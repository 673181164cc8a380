-- ===== src/Flag/Evaluate/Rollout.antt =====
-- Who a flag is on for.
use sightpane.Prelude.{
  ℕ, ◌+◌, ◌<◌, ◌≡◌, ◌≢◌, ◌↔◌, true, List, [], ◌∷◌, arith, Bool-cases, inl, inr, ◌++◌, All, refl,
}
use sightpane.Prelude.Int.{ℤ, pos, ◌≤ℤ◌}
use sightpane.Prelude.Text.{Text, codes}
use sightpane.Flag.{Value, FlagLib, FlagFilter, FlagVariant, FeatureFlag}
use sightpane.Flag.Filter.{matches_filter}
use sightpane.Flag.Evaluate.{
  off, evaluate_flag, matches_all, in_rollout, bucket, serve, hash_distinct_id, choose, or_last,
  total_rollout,
}

module _ (lib : FlagLib) where
  pub hash_distinct_id_lt : (key id : Text) → hash_distinct_id lib key id < 100
  unfolding hash_distinct_id
  hash_distinct_id_lt key id = ground arith

  bucket_lt : (flag : FeatureFlag lib) (id : Text) → bucket lib flag id < 100
  unfolding bucket
  bucket_lt flag id = ground (arith, hash_distinct_id_lt flag.key id)

  choose-on :
      (total : ℤ) (hash : ℕ) (v : FlagVariant) (vs : List FlagVariant)
      → choose lib total hash v vs ≢ off
  unfolding choose or_last
  choose-on total hash v vs e = ground arith

  serve-on :
      (flag : FeatureFlag lib) (vs : List FlagVariant) (id : Text) → serve lib flag vs id ≢ off
  unfolding serve
  serve-on flag [] id e = ground arith
  serve-on flag (v ∷ vs) id e =
      choose-on (total_rollout (pos 0) (v ∷ vs))
        (hash_distinct_id lib (flag.key ++ codes ":variant") id) v vs e

  -- Rolling a flag out to a larger percentage keeps the answer of everyone it was on for.
  evaluate_flag_mono :
      (flag : FeatureFlag lib) (percentage : ℤ) (id : Text)
      (properties : Text → Value lib.F lib.Any)
      → flag.rollout_percentage ≤ℤ percentage
      → evaluate_flag lib flag id properties ≢ off
      → evaluate_flag lib (record flag { rollout_percentage = percentage }) id properties
        ≡ evaluate_flag lib flag id properties
  unfolding evaluate_flag in_rollout
  evaluate_flag_mono flag percentage id properties le h = ground arith

  matches_all-All :
      (fs : List (FlagFilter lib)) (id : Text) (properties : Text → Value lib.F lib.Any)
      → ((matches_all lib fs id properties ≡ true)
          ↔ All (λ f. matches_filter lib f id properties ≡ true) fs)
  unfolding matches_all
  matches_all-All [] id properties = (λ h. tt, λ h. refl)
  matches_all-All (f ∷ fs) id properties =
      let rest = matches_all-All fs id properties in
      elim (Bool-cases (matches_filter lib f id properties)) [
        | inl e ↦ rw e (λ h. (refl, rest.0 h), λ h. rest.1 h.1)
        | inr e ↦ rw e (λ h. cc, λ h. cc)
      ]

  -- A flag is on for a user exactly if it is enabled, every filter matches and the user's bucket is
  -- below the percentage; buckets are below 100.
  pub evaluate_flag_iff :
      (flag : FeatureFlag lib) (id : Text) (properties : Text → Value lib.F lib.Any)
      → ((evaluate_flag lib flag id properties ≢ off) ↔ (
          (flag.enabled ≡ true)
          × All (λ f. matches_filter lib f id properties ≡ true) flag.filters
          × (pos (bucket lib flag id + 1) ≤ℤ flag.rollout_percentage)))
        × (bucket lib flag id < 100)
  unfolding evaluate_flag in_rollout
  evaluate_flag_iff flag id properties =
      let (to, from) = matches_all-All flag.filters id properties in
      let on = serve-on flag flag.variants id in
      (
        (
          λ h. (ground arith, to (ground arith), ground arith),
          λ (e, a, p). ground (arith, on, from a),
        ),
        bucket_lt flag id,
      )
