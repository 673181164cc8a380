-- ===== src/Flag/Evaluate.antt =====
-- EvaluateFlag (internal/store/feature_flags.go). Sums of rollouts are taken to fit an int.
pub mod Rollout
pub mod Variants
use sightpane.Prelude.{
  ℕ, ◌+◌, ◌*◌, ◌/◌, ◌%◌, ◌^◌, Bool, true, false, ◌&&◌, not, Option, none, some, List, [], ◌∷◌, ◌++◌,
  ltb, if◌then◌else◌,
}
use sightpane.Prelude.Int.{ℤ, pos, negsuc, ◌+ℤ◌, ltb_ℤ}
use sightpane.Prelude.Text.{Text, codes, is_empty}
use sightpane.Flag.{Value, FlagLib, FlagFilter, FlagVariant, FeatureFlag}
use sightpane.Flag.Filter.{matches_filter}

-- (false, false), (true, true) and (v.Key, true).
pub data Answer : Type 0 where
  off on : Answer
  variant : Text → Answer

-- binary.BigEndian.Uint32 on the first four bytes.
be_uint32 : List ℕ → ℕ
be_uint32 (a ∷ b ∷ c ∷ d ∷ rest) = a * 2 ^ 24 + b * 2 ^ 16 + c * 2 ^ 8 + d
be_uint32 _ = 0

total_rollout : ℤ → List FlagVariant → ℤ
total_rollout sum [] = sum
total_rollout sum (v ∷ vs) = total_rollout (sum +ℤ v.rollout) vs

-- The loop over the variants: the first whose cumulative rollout is over the target.
pick_variant : ℕ → ℤ → List FlagVariant → Option Text
pick_variant target cumulative [] = none
pick_variant target cumulative (v ∷ vs) =
    if ltb_ℤ (pos target) (cumulative +ℤ v.rollout)
    then some v.key
    else pick_variant target (cumulative +ℤ v.rollout) vs

last_key : Text → List FlagVariant → Text
last_key key [] = key
last_key key (v ∷ vs) = last_key v.key vs

module _ (lib : FlagLib) where
  unfoldable pub hash_distinct_id : Text → Text → ℕ
  unfolding be_uint32
  hash_distinct_id key distinct_id = be_uint32 (lib.sum256 (key ++ codes ":" ++ distinct_id)) % 100

  matches_all : List (FlagFilter lib) → Text → (Text → Value lib.F lib.Any) → Bool
  matches_all [] distinct_id properties = true
  matches_all (f ∷ fs) distinct_id properties =
      if matches_filter lib f distinct_id properties
      then matches_all fs distinct_id properties
      else false

  or_last : Option Text → FlagVariant → List FlagVariant → Answer
  unfolding last_key
  or_last (some key) v vs = variant key
  or_last none v vs = variant (last_key v.key vs)

  choose : ℤ → ℕ → FlagVariant → List FlagVariant → Answer
  unfolding pick_variant or_last
  choose (pos total) hash v vs =
      if ltb 0 total then or_last (pick_variant (hash * total / 100) (pos 0) (v ∷ vs)) v vs else on
  choose (negsuc total) hash v vs = on

  -- The multivariant distribution.
  serve : FeatureFlag lib → List FlagVariant → Text → Answer
  unfolding choose total_rollout hash_distinct_id
  serve flag [] distinct_id = on
  serve flag (v ∷ vs) distinct_id =
      choose (total_rollout (pos 0) (v ∷ vs))
        (hash_distinct_id (flag.key ++ codes ":variant") distinct_id) v vs

  -- 0 where there is no id.
  pub bucket : FeatureFlag lib → Text → ℕ
  unfolding hash_distinct_id
  bucket flag distinct_id =
      if is_empty distinct_id then 0 else hash_distinct_id flag.key distinct_id

  in_rollout : ℤ → ℕ → Bool
  in_rollout (pos percentage) hash = ltb 0 percentage && ltb hash percentage
  in_rollout (negsuc percentage) hash = false

  unfoldable pub evaluate_flag : FeatureFlag lib → Text → (Text → Value lib.F lib.Any) → Answer
  unfolding matches_all in_rollout bucket serve
  evaluate_flag flag distinct_id properties =
      if not flag.enabled
      then off
      else if not (matches_all flag.filters distinct_id properties)
      then off
      else if not (in_rollout flag.rollout_percentage (bucket flag distinct_id))
      then off
      else serve flag flag.variants distinct_id
