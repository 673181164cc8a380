-- ===== src/Survey/Results/Buckets.antt =====
-- The buckets of an NPS survey against its three groups.
use sightpane.Prelude.{
  ℕ, ◌+◌, ◌≤◌, ◌≡◌, refl, ◌∙◌, sym, Bool, true, false, Option, none, some, List, [], ◌∷◌, map, keep,
  All, arith, if◌then◌else◌,
}
use sightpane.Prelude.Int.{ℤ, pos, negsuc}
use sightpane.Survey.{SurveyLib, SurveyResponse}
use sightpane.Survey.Results.{
  is_between, is_from, is_score, count_scores, buckets, nps_scores, SurveyResults, nps_results,
}

-- A score of an NPS survey is from 0 to 10, or missing.
abbrev pub IsNps : Option ℤ → Type 0
IsNps none = Unit
IsNps (some (pos n)) = n ≤ 10
IsNps (some (negsuc n)) = ⊥

unfoldable pub sum_counts : List (ℕ × ℕ) → ℕ
sum_counts [] = 0
sum_counts ((i, n) ∷ bs) = n + sum_counts bs

unfoldable pub is_scored : Option ℤ → Bool
is_scored none = false
is_scored (some z) = true

abbrev bit : Bool → ℕ
bit b = if b then 1 else 0

count_scores-cons :
    (p : Option ℤ → Bool) (r : SurveyResponse) (rs : List SurveyResponse)
    → count_scores p (r ∷ rs) ≡ bit (p r.score) + count_scores p rs
unfolding count_scores keep
count_scores-cons p r rs = ground arith

sum_counts-add :
    (f g h : ℕ → ℕ) (is : List ℕ)
    → ((i : ℕ) → f i ≡ g i + h i)
    → sum_counts (map (λ i. (i, f i)) is)
      ≡ sum_counts (map (λ i. (i, g i)) is) + sum_counts (map (λ i. (i, h i)) is)
unfolding sum_counts
sum_counts-add f g h [] e = refl
sum_counts-add f g h (i ∷ is) e = omega (arith, e i, sum_counts-add f g h is e)

-- A score is in exactly one bucket.
one_bucket :
    (s : Option ℤ)
    → IsNps s
    → sum_counts (map (λ i. (i, bit (is_score i s))) nps_scores) ≡ bit (is_scored s)
unfolding sum_counts is_score is_scored
one_bucket none h = refl
one_bucket (some (pos n)) h = ground arith
one_bucket (some (negsuc n)) h = absurd h

-- A score is in exactly one group.
one_group :
    (s : Option ℤ)
    → IsNps s
    → bit (is_from 9 s) + bit (is_between 7 8 s) + bit (is_between 0 6 s) ≡ bit (is_scored s)
unfolding is_from is_between is_scored
one_group none h = refl
one_group (some (pos n)) h = ground arith
one_group (some (negsuc n)) h = absurd h

sum_buckets :
    (rs : List SurveyResponse)
    → All (λ r. IsNps r.score) rs
    → sum_counts (buckets nps_scores rs) ≡ count_scores is_scored rs
unfolding buckets
sum_buckets [] h = unfold sum_counts count_scores keep in refl
sum_buckets (r ∷ rs) (h, hs) =
    sum_counts-add (λ i. count_scores (is_score i) (r ∷ rs)) (λ i. bit (is_score i r.score))
      (λ i. count_scores (is_score i) rs) nps_scores (λ i. count_scores-cons (is_score i) r rs)
    ∙ omega (arith, one_bucket r.score h, sum_buckets rs hs, count_scores-cons is_scored r rs)

sum_groups :
    (rs : List SurveyResponse)
    → All (λ r. IsNps r.score) rs
    → count_scores (is_from 9) rs
        + count_scores (is_between 7 8) rs
        + count_scores (is_between 0 6) rs
      ≡ count_scores is_scored rs
sum_groups [] h = unfold count_scores keep in refl
sum_groups (r ∷ rs) (h, hs) = omega (
  arith,
  count_scores-cons (is_from 9) r rs,
  count_scores-cons (is_between 7 8) r rs,
  count_scores-cons (is_between 0 6) r rs,
  count_scores-cons is_scored r rs,
  one_group r.score h,
  sum_groups rs hs,
)

-- Where every score is from 0 to 10 or missing, the counts of the distribution of an NPS survey add up
-- to its promoters, passives and detractors together, and these are the answers that have a score.
pub nps_results-AddUp :
    (lib : SurveyLib) (rs : List SurveyResponse) (r : SurveyResults lib)
    → All (λ x. IsNps x.score) rs
    → (let res = nps_results lib rs r in
        (sum_counts res.distribution
          ≡ res.promoters_count + res.passives_count + res.detractors_count)
        × (res.promoters_count + res.passives_count + res.detractors_count
            ≡ count_scores is_scored rs))
unfolding nps_results
nps_results-AddUp lib rs r h = (sum_buckets rs h ∙ sym (sum_groups rs h), sum_groups rs h)
