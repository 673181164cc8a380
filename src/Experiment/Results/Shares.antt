-- ===== src/Experiment/Results/Shares.antt =====
-- The counts of the variants add up to the users.
use mathlib.Core.Path.{subst}
use sightpane.Prelude.{
  ℕ, ◌+◌, ◌≤◌, ◌≡◌, refl, ap, sym, ◌∙◌, Bool, true, false, ◌||◌, inl, inr, some, List, [], ◌∷◌, map,
  length, keep, All, All-map, arith, Bool-cases, if◌then◌else◌,
}
use sightpane.Prelude.Text.{Text, text_eq, text_eq_iff, text_eq_refl, text_eq_comm}
use sightpane.Prelude.Keys.{HasKeys}
use sightpane.Flag.{FlagLib, FeatureFlag, null}
use sightpane.Flag.Evaluate.{evaluate_flag}
use sightpane.Flag.Table.{lookup}
use sightpane.Experiment.{ExperimentVariant}
use sightpane.Experiment.Results.{
  Counts, or_zero, is_some, count_of, has_count, bump, zeroes, is_in, key_of_answer, Tally,
  VariantResult, row_of, place, count_user, count_users, results_of,
}

-- Some variant has the key.
has_variant : Text → List ExperimentVariant → Bool
has_variant key [] = false
has_variant key (v ∷ vs) = text_eq v.key key || has_variant key vs

total : List ExperimentVariant → Counts → ℕ
total [] m = 0
total (v ∷ vs) m = count_of v.key m + total vs m

-- The sum of a column of the results.
unfoldable pub sum_of : (VariantResult → ℕ) → List VariantResult → ℕ
sum_of column [] = 0
sum_of column (r ∷ rs) = column r + sum_of column rs

count_of-bump :
    (k j : Text) (m : Counts)
    → count_of j (bump k m) ≡ (if text_eq k j then count_of j m + 1 else count_of j m)
unfolding count_of bump or_zero lookup
count_of-bump k j m = ground (arith, text_eq_iff k j)

total-bump_absent :
    (k : Text) (vs : List ExperimentVariant) (m : Counts)
    → All (λ v. text_eq v.key k ≡ false) vs
    → total vs (bump k m) ≡ total vs m
unfolding total
total-bump_absent k [] m a = refl
total-bump_absent k (v ∷ vs) m (h, a) =
    ground (arith, count_of-bump k v.key m, text_eq_comm k v.key, total-bump_absent k vs m a)

total-bump :
    (k : Text) (vs : List ExperimentVariant) (m : Counts)
    → HasKeys (λ v. v.key) vs
    → has_variant k vs ≡ true
    → total vs (bump k m) ≡ total vs m + 1
unfolding total has_variant
total-bump k [] m u h = cc
total-bump k (v ∷ vs) m (u, us) h = elim (Bool-cases (text_eq v.key k)) [
  | inl e ↦
      let same = (text_eq_iff v.key k).0 e in
      let rest =
        total-bump_absent k vs m (subst (λ t. All (λ y. text_eq y.key t ≡ false) vs) same u) in
      ground (arith, count_of-bump k v.key m, text_eq_comm k v.key, rest)
  | inr e ↦
      ground
        (arith, count_of-bump k v.key m, text_eq_comm k v.key, total-bump k vs m us (rw e at h))
]

-- Only keys of variants are counted.
abbrev Covers : List ExperimentVariant → Counts → Type 0
Covers vs m = (key : Text) → has_count key m ≡ true → has_variant key vs ≡ true

Covers-bump :
    (k : Text) (vs : List ExperimentVariant) (m : Counts)
    → has_variant k vs ≡ true
    → Covers vs m
    → Covers vs (bump k m)
unfolding has_count bump is_some lookup
Covers-bump k vs m h c key e = elim (Bool-cases (text_eq k key)) [
  | inl same ↦ ap (λ t. has_variant t vs) (sym ((text_eq_iff k key).0 same)) ∙ h
  | inr other ↦ c key (rw other at e)
]

Covers-zeroes :
    (all vs : List ExperimentVariant) (m : Counts)
    → ((key : Text) → has_variant key vs ≡ true → has_variant key all ≡ true)
    → Covers all m
    → Covers all (zeroes vs m)
unfolding zeroes has_variant
Covers-zeroes all [] m h c = c
Covers-zeroes all (v ∷ vs) m h c =
    Covers-zeroes all vs ((v.key, 0) ∷ m) (λ key e. h key (ground arith))
      λ key e. elim (Bool-cases (text_eq v.key key)) [
        | inl same ↦ h key (rw same refl)
        | inr other ↦ c key (unfold has_count is_some lookup in (rw other at e))
      ]

count_of-zeroes :
    (vs : List ExperimentVariant) (m : Counts) (key : Text)
    → count_of key m ≡ 0
    → count_of key (zeroes vs m) ≡ 0
unfolding zeroes
count_of-zeroes [] m key h = h
count_of-zeroes (v ∷ vs) m key h =
    count_of-zeroes vs ((v.key, 0) ∷ m) key (unfold count_of or_zero lookup in ground arith)

total-zeroes : (vs all : List ExperimentVariant) → total vs (zeroes all []) ≡ 0
unfolding total
total-zeroes [] all = refl
total-zeroes (v ∷ vs) all = omega (
  arith,
  count_of-zeroes all [] v.key (unfold count_of or_zero lookup in refl),
  total-zeroes vs all,
)

sum_of-rows :
    (column : VariantResult → ℕ) (counts : Counts) (t : Tally) (vs : List ExperimentVariant)
    → ((v : ExperimentVariant) → column (row_of t v) ≡ count_of v.key counts)
    → sum_of column (map (row_of t) vs) ≡ total vs counts
unfolding sum_of total
sum_of-rows column counts t [] h = refl
sum_of-rows column counts t (v ∷ vs) h = omega (arith, h v, sum_of-rows column counts t vs h)

module _ (lib : FlagLib) (flag : FeatureFlag lib) (converted : List Text) (first : Text)
    (vs : List ExperimentVariant) (listed : has_variant first vs ≡ true)
    (u : HasKeys (λ v. v.key) vs) where
  place-listed :
      (user : Text) (m : Counts)
      → Covers vs m
      → has_variant (place lib flag converted first user m) vs ≡ true
  unfolding place
  place-listed user m c =
      let key = key_of_answer first (evaluate_flag lib flag user (λ property. null)) in
      elim (Bool-cases (has_count key m)) [ inl e ↦ rw e (c key e) | inr e ↦ rw e listed ]

  -- What holds of the counts after some users.
  record IsTallied (t : Tally) (users conversions : ℕ) : Type 0 where
    covers : Covers vs t.participants
    counted : total vs t.participants ≡ users
    converts : total vs t.conversions ≡ conversions
    fewer : (key : Text) → count_of key t.conversions ≤ count_of key t.participants

  count_user-IsTallied :
      (user : Text) (t : Tally) (n k : ℕ)
      → IsTallied t n k
      → IsTallied
          (count_user lib flag converted first user t)
          (n + 1)
          (if is_in user converted then k + 1 else k)
  unfolding count_user
  count_user-IsTallied user t n k i =
      let key = place lib flag converted first user t.participants in
      let h = place-listed user t.participants i.covers in
      record {
        covers = Covers-bump key vs t.participants h i.covers;
        counted = omega (arith, total-bump key vs t.participants u h, i.counted);
        converts = ground (arith, total-bump key vs t.conversions u h, i.converts);
        fewer = λ j. ground (
          arith,
          count_of-bump key j t.participants,
          count_of-bump key j t.conversions,
          i.fewer j,
        );
      }

  transported : (t : Tally) (n n' k k' : ℕ) → n ≡ n' → k ≡ k' → IsTallied t n k → IsTallied t n' k'
  transported t n n' k k' e f i = subst (λ a. IsTallied t a k') e (subst (λ b. IsTallied t n b) f i)

  count_users-IsTallied :
      (users : List Text) (t : Tally) (n k : ℕ)
      → IsTallied t n k
      → IsTallied
          (count_users lib flag converted first users t)
          (n + length users)
          (k + length (keep (λ user. is_in user converted) users))
  unfolding count_users keep
  count_users-IsTallied [] t n k i = transported t n (n + 0) k (k + 0) (omega arith) (omega arith) i
  count_users-IsTallied (user ∷ users) t n k i =
      let rest =
        count_users-IsTallied users (count_user lib flag converted first user t) (n + 1)
          (if is_in user converted then k + 1 else k) (count_user-IsTallied user t n k i) in
      transported
        (count_users lib flag converted first users (count_user lib flag converted first user t))
        (n + 1 + length users) (n + length (user ∷ users))
        ((if is_in user converted then k + 1 else k) + length (keep (λ v. is_in v converted) users))
        (k
          + length (
              if is_in user converted
              then user ∷ keep (λ v. is_in v converted) users
              else keep (λ v. is_in v converted) users))
        (omega arith) (ground arith) rest

each :
    (t : Tally)
    → ((key : Text) → count_of key t.conversions ≤ count_of key t.participants)
    → (vs : List ExperimentVariant)
    → All (λ v. (row_of t v).conversions ≤ (row_of t v).participants) vs
unfolding row_of
each t h [] = tt
each t h (v ∷ vs) = (h v.key, each t h vs)

-- Of the rows: their participants, their conversions, and each row on its own.
abbrev pub AddUp : List VariantResult → ℕ → ℕ → Type 0
AddUp rows users conversions =
    (sum_of (λ r. r.participants) rows ≡ users)
    × (sum_of (λ r. r.conversions) rows ≡ conversions)
    × All (λ r. r.conversions ≤ r.participants) rows

module _ (lib : FlagLib) (flag : FeatureFlag lib) (users converted : List Text) where
  start-IsTallied :
      (v : ExperimentVariant) (vs : List ExperimentVariant)
      (listed : has_variant v.key (v ∷ vs) ≡ true) (u : HasKeys (λ w. w.key) (v ∷ vs))
      → IsTallied lib flag converted v.key
          (v ∷ vs)
          listed
          u
          (record { participants = zeroes (v ∷ vs) []; conversions = zeroes (v ∷ vs) [] })
          0
          0
  start-IsTallied v vs listed u = record {
    covers =
        Covers-zeroes (v ∷ vs) (v ∷ vs) [] (λ key h. h)
          (λ key e. absurd (unfold has_count is_some lookup in ground arith));
    counted = total-zeroes (v ∷ vs) (v ∷ vs);
    converts = total-zeroes (v ∷ vs) (v ∷ vs);
    fewer = λ key. omega arith;
  }

  -- The results of an experiment with at least one variant, whose variants have distinct keys: every
  -- user is counted under exactly one variant, whatever the flag serves, so the participants of the
  -- variants add up to the users and the conversions to the users who converted, and no variant has
  -- more conversions than participants.
  pub results_of-AddUp :
      (v : ExperimentVariant) (vs : List ExperimentVariant)
      → HasKeys (λ w. w.key) (v ∷ vs)
      → (rows : List VariantResult) × (results_of lib flag (v ∷ vs) users converted ≡ some rows)
        × AddUp rows (length users) (length (keep (λ user. is_in user converted) users))
  unfolding results_of
  results_of-AddUp v vs u =
      let listed : has_variant v.key (v ∷ vs) ≡ true =
        unfold has_variant in rw (text_eq_refl v.key) refl in
      let start : Tally = record {
        participants = zeroes (v ∷ vs) [];
        conversions = zeroes (v ∷ vs) [];
      } in
      let t = count_users lib flag converted v.key users start in
      let i =
        count_users-IsTallied lib flag converted v.key (v ∷ vs) listed u users start 0 0
          (start-IsTallied v vs listed u) in
      (
        map (row_of t) (v ∷ vs),
        refl,
        (
          sum_of-rows (λ r. r.participants) t.participants t (v ∷ vs) (λ w. unfold row_of in refl)
              ∙ i.counted
              ∙ omega arith,
          sum_of-rows (λ r. r.conversions) t.conversions t (v ∷ vs) (λ w. unfold row_of in refl)
              ∙ i.converts
              ∙ omega arith,
          All-map (λ r. r.conversions ≤ r.participants) (row_of t) (v ∷ vs)
              (each t (λ key. i.fewer key) (v ∷ vs)),
        ),
      )
