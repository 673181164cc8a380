-- ===== src/Flag/Evaluate/Variants.antt =====
-- The variant that a flag serves.
use sightpane.Prelude.{
  ℕ, ◌+◌, ◌*◌, ◌/◌, ◌<◌, ◌≤◌, ◌≡◌, ◌≢◌, ap, refl, ◌∙◌, true, false, some, List, [], ◌∷◌, ◌++◌,
  arith, Bool-cases, inl, inr, All,
}
use sightpane.Prelude.Int.{ℤ, pos, negsuc, ◌≤ℤ◌, +ℤ_pos, ltb_ℤ}
use sightpane.Prelude.Text.{Text, codes}
use sightpane.Flag.{Value, FlagLib, FlagVariant, FeatureFlag}
use sightpane.Flag.Evaluate.Rollout.{hash_distinct_id_lt}
use sightpane.Flag.Evaluate.{
  off, on, variant, evaluate_flag, serve, hash_distinct_id, choose, or_last, total_rollout,
  pick_variant,
}

-- A list of variants that no rollout is negative in.
abbrev pub IsSplit : List FlagVariant → Type 0
IsSplit = All (λ v. pos 0 ≤ℤ v.rollout)

-- The sum of the rollouts.
unfoldable pub rollouts : List FlagVariant → ℕ
rollouts [] = 0
rollouts (v ∷ vs) = elim v.rollout [ pos n ↦ n + rollouts vs | negsuc n ↦ rollouts vs ]

not_negative : (r : ℤ) → pos 0 ≤ℤ r → (n : ℕ) × (r ≡ pos n)
not_negative (pos n) h = (n, refl)
not_negative (negsuc n) h = absurd (ground arith)

total_rollout-rollouts :
    (sum : ℕ) (vs : List FlagVariant)
    → IsSplit vs
    → total_rollout (pos sum) vs ≡ pos (sum + rollouts vs)
unfolding total_rollout rollouts
total_rollout-rollouts sum [] h = ground arith
total_rollout-rollouts sum (v ∷ vs) (h, hs) =
    let (n, e) = not_negative v.rollout h in
    rw (e, +ℤ_pos sum n, total_rollout-rollouts (sum + n) vs hs) (ground arith)

-- The variants split as `before ++ served ∷ after`, and the target falls into the share of `served`
-- when the shares are laid one after another from `start`.
pub record IsShare (start target : ℕ) (vs : List FlagVariant) (key : Text) : Type 0 where
  pub before : List FlagVariant
  pub served : FlagVariant
  pub after : List FlagVariant
  pub split : vs ≡ before ++ served ∷ after
  pub named : served.key ≡ key
  pub from : start + rollouts before ≤ target
  pub to : target < start + rollouts before + rollouts (served ∷ [])

-- The outcome of the loop over the variants.
abbrev Picks : (start target : ℕ) → List FlagVariant → Type 0
Picks start target vs =
    (key : Text) × (pick_variant target (pos start) vs ≡ some key) × IsShare start target vs key

module _ (start target n : ℕ) (v : FlagVariant) (vs : List FlagVariant)
    (r : v.rollout ≡ pos n) where
  first-Picks :
      start ≤ target → ltb_ℤ (pos target) (pos (start + n)) ≡ true → Picks start target (v ∷ vs)
  unfolding pick_variant rollouts
  first-Picks le e = (
    v.key,
    rw (r, +ℤ_pos start n, e) refl,
    record {
      before = [];
      served = v;
      after = vs;
      split = refl;
      named = refl;
      from = omega arith;
      to = rw r (ground arith);
    },
  )

  later-Picks :
      ltb_ℤ (pos target) (pos (start + n)) ≡ false
      → Picks (start + n) target vs
      → Picks start target (v ∷ vs)
  unfolding pick_variant rollouts
  later-Picks e (key, found, share) = (
    key,
    rw (r, +ℤ_pos start n, e) found,
    record {
      before = v ∷ share.before;
      served = share.served;
      after = share.after;
      split = ap (λ l. v ∷ l) share.split;
      named = share.named;
      from = rw r (omega (arith, share.from));
      to = rw r (omega (arith, share.to));
    },
  )

pick_variant-Picks :
    (start target : ℕ) (vs : List FlagVariant)
    → IsSplit vs
    → start ≤ target
    → target < start + rollouts vs
    → Picks start target vs
unfolding rollouts
pick_variant-Picks start target [] h le lt = absurd (omega arith)
pick_variant-Picks start target (v ∷ vs) (h, hs) le lt =
    let (n, r) = not_negative v.rollout h in
    let below : target < start + (n + rollouts vs) = rw r at lt in
    elim (Bool-cases (ltb_ℤ (pos target) (pos (start + n)))) [
      | inl e ↦ first-Picks start target n v vs r le e
      | inr e ↦
          later-Picks start target n v vs r e
            (pick_variant-Picks (start + n) target vs hs (ground arith) (omega arith))
    ]

below_total : (hash total : ℕ) → hash < 100 → 0 < total → hash * total / 100 < total
below_total hash total h t = grind arith

module _ (lib : FlagLib) (flag : FeatureFlag lib) (id : Text)
    (properties : Text → Value lib.F lib.Any) where
  -- The place of a user in the sum of the rollouts.
  abbrev pub target : ℕ
  target = hash_distinct_id lib (flag.key ++ codes ":variant") id * rollouts flag.variants / 100

  choose-found :
      (total : ℤ) (n hash : ℕ) (key : Text) (v : FlagVariant) (vs : List FlagVariant)
      → total ≡ pos n
      → 0 < n
      → pick_variant (hash * n / 100) (pos 0) (v ∷ vs) ≡ some key
      → choose lib total hash v vs ≡ variant key
  unfolding choose or_last
  choose-found total n hash key v vs e h found = rw (e, found) (ground arith)

  serve-IsShare :
      (vs : List FlagVariant)
      → IsSplit vs
      → 0 < rollouts vs
      → (key : Text) × (serve lib flag vs id ≡ variant key)
        × IsShare 0
            (hash_distinct_id lib (flag.key ++ codes ":variant") id * rollouts vs / 100)
            vs
            key
  unfolding serve
  serve-IsShare [] h some_rollout = absurd (unfold rollouts in ground arith)
  serve-IsShare (v ∷ vs) h some_rollout =
      let hash = hash_distinct_id lib (flag.key ++ codes ":variant") id in
      let below : hash * rollouts (v ∷ vs) / 100 < rollouts (v ∷ vs) =
        below_total hash (rollouts (v ∷ vs))
          (hash_distinct_id_lt lib (flag.key ++ codes ":variant") id) some_rollout in
      let (key, found, share) =
        pick_variant-Picks 0 (hash * rollouts (v ∷ vs) / 100) (v ∷ vs) h (omega arith)
          (omega (arith, below)) in
      (
        key,
        choose-found (total_rollout (pos 0) (v ∷ vs)) (rollouts (v ∷ vs)) hash key v vs
            (total_rollout-rollouts 0 (v ∷ vs) h ∙ ap pos (omega arith)) some_rollout found,
        share,
      )

  pub evaluate_flag-IsShare :
      IsSplit flag.variants
      → 0 < rollouts flag.variants
      → evaluate_flag lib flag id properties ≢ off
      → (key : Text) × (evaluate_flag lib flag id properties ≡ variant key)
        × IsShare 0 target flag.variants key
  unfolding evaluate_flag
  evaluate_flag-IsShare h some_rollout is_on =
      let (key, served, share) = serve-IsShare flag.variants h some_rollout in
      (key, ground (arith, served), share)

  choose-none :
      (total : ℤ) (hash : ℕ) (v : FlagVariant) (vs : List FlagVariant)
      → total ≡ pos 0
      → choose lib total hash v vs ≡ on
  unfolding choose
  choose-none total hash v vs e = rw e refl

  serve-none : (vs : List FlagVariant) → IsSplit vs → rollouts vs ≡ 0 → serve lib flag vs id ≡ on
  unfolding serve
  serve-none [] h e = refl
  serve-none (v ∷ vs) h e =
      choose-none (total_rollout (pos 0) (v ∷ vs))
        (hash_distinct_id lib (flag.key ++ codes ":variant") id) v vs
        (total_rollout-rollouts 0 (v ∷ vs) h ∙ ap pos (omega (arith, e)))

  -- A flag that is on and whose rollouts are all 0 serves no variant.
  pub evaluate_flag-on :
      IsSplit flag.variants
      → rollouts flag.variants ≡ 0
      → evaluate_flag lib flag id properties ≢ off
      → evaluate_flag lib flag id properties ≡ on
  unfolding evaluate_flag
  evaluate_flag-on h e is_on = ground (arith, serve-none flag.variants h e)
