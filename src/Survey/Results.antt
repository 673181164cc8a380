-- ===== src/Survey/Results.antt =====
-- GetSurveyResults (internal/store/surveys.go), by the type of the survey.
pub mod Buckets
use sightpane.Prelude.{
  ℕ, ◌+◌, ◌==◌, Bool, true, false, not, ◌&&◌, ◌||◌, Option, none, some, List, [], ◌∷◌, map, keep,
  length, if◌then◌else◌, leb,
}
use sightpane.Prelude.Int.{ℤ, pos, negsuc, ◌-ℤ◌}
use sightpane.Prelude.Text.{Text, codes, text_eq, is_empty}
use sightpane.Survey.{
  SurveyLib, Survey, SurveyResponse, SurveyDb, survey_not_found, Result, done, failed,
}
use sightpane.Survey.Table.{get_survey, responses_to}

-- COUNT(*) FILTER (WHERE score >= lo AND score <= hi), for bounds that are not negative.
unfoldable pub is_between : ℕ → ℕ → Option ℤ → Bool
is_between lo hi none = false
is_between lo hi (some (negsuc n)) = false
is_between lo hi (some (pos n)) = leb lo n && leb n hi

unfoldable pub is_from : ℕ → Option ℤ → Bool
is_from lo none = false
is_from lo (some (negsuc n)) = false
is_from lo (some (pos n)) = leb lo n

unfoldable pub is_score : ℕ → Option ℤ → Bool
is_score i none = false
is_score i (some (negsuc n)) = false
is_score i (some (pos n)) = n == i

unfoldable pub count_scores : (Option ℤ → Bool) → List SurveyResponse → ℕ
count_scores p rs = length (keep (λ r. p r.score) rs)

scores : List SurveyResponse → List ℤ
scores [] = []
scores (r ∷ rs) = elim r.score [ none ↦ scores rs | some z ↦ z ∷ scores rs ]

-- The buckets of the map that the query's groups fill, 0 where there is no group.
unfoldable pub buckets : List ℕ → List SurveyResponse → List (ℕ × ℕ)
unfolding count_scores is_score
buckets is rs = map (λ i. (i, count_scores (is_score i) rs)) is

abbrev pub nps_scores : List ℕ
nps_scores = 0 ∷ 1 ∷ 2 ∷ 3 ∷ 4 ∷ 5 ∷ 6 ∷ 7 ∷ 8 ∷ 9 ∷ 10 ∷ []

abbrev pub csat_scores : List ℕ
csat_scores = 1 ∷ 2 ∷ 3 ∷ 4 ∷ 5 ∷ []

has_choice : Text → List Text → Bool
has_choice t [] = false
has_choice t (c ∷ cs) = text_eq c t || has_choice t cs

-- The map of the choices: a group of the query, else 0 for a choice of the survey.
choice_count : List Text → List SurveyResponse → Text → Option ℕ
unfolding has_choice
choice_count choices rs t =
    let n = length (keep (λ r. text_eq r.response_text t) rs) in
    if not (is_empty t) && not (n == 0)
    then some n
    else if has_choice t choices
    then some 0
    else none

module _ (lib : SurveyLib) where
  pub record SurveyResults : Type 0 where
    pub survey_id : ℕ
    pub kind : Text
    pub total_responses : ℕ
    pub nps_score : Option lib.F
    pub promoters_count : ℕ
    pub passives_count : ℕ
    pub detractors_count : ℕ
    pub average_score : Option lib.F
    pub satisfaction_rate : Option lib.F
    pub distribution : List (ℕ × ℕ)
    pub choice_counts : Text → Option ℕ

  abbrev pub no_results : ℕ → Text → ℕ → SurveyResults
  no_results survey kind total = record {
    survey_id = survey;
    kind = kind;
    total_responses = total;
    nps_score = none;
    promoters_count = 0;
    passives_count = 0;
    detractors_count = 0;
    average_score = none;
    satisfaction_rate = none;
    distribution = [];
    choice_counts = λ t. none;
  }

  rate : ℤ → ℕ → Option lib.F
  rate part total =
      if total == 0
      then none
      else some (lib.times_100 (lib.quotient (lib.of_ℤ part) (lib.of_ℤ (pos total))))

  unfoldable pub nps_results : List SurveyResponse → SurveyResults → SurveyResults
  unfolding buckets count_scores is_from is_between rate
  nps_results rs r =
      let promoters = count_scores (is_from 9) rs in
      let passives = count_scores (is_between 7 8) rs in
      let detractors = count_scores (is_between 0 6) rs in
      record r {
        promoters_count = promoters;
        passives_count = passives;
        detractors_count = detractors;
        nps_score = rate (pos promoters -ℤ pos detractors) (promoters + passives + detractors);
        distribution = buckets nps_scores rs;
      }

  unfoldable pub csat_results : List SurveyResponse → SurveyResults → SurveyResults
  unfolding buckets count_scores is_from rate scores
  csat_results rs r = record r {
    average_score = some (lib.average (scores rs));
    satisfaction_rate = rate (pos (count_scores (is_from 4) rs)) (length (scores rs));
    distribution = buckets csat_scores rs;
  }

  unfoldable pub results_by_type : Survey lib → List SurveyResponse → SurveyResults → SurveyResults
  unfolding nps_results csat_results choice_count
  results_by_type s rs r =
      if text_eq s.kind (codes "nps")
      then nps_results rs r
      else if text_eq s.kind (codes "csat") || text_eq s.kind (codes "rating")
      then csat_results rs r
      else if text_eq s.kind (codes "single_choice")
      then record r { choice_counts = choice_count s.choices rs }
      else r

  results_found : Option (Survey lib) → ℕ → List SurveyResponse → Result SurveyResults
  unfolding results_by_type
  results_found none survey rs = failed survey_not_found
  results_found (some s) survey [] = done (no_results survey s.kind 0)
  results_found (some s) survey (r ∷ rs) =
      done (results_by_type s (r ∷ rs) (no_results survey s.kind (length (r ∷ rs))))

  unfoldable pub get_survey_results : ℕ → ℕ → SurveyDb lib → Result SurveyResults
  unfolding results_found get_survey responses_to
  get_survey_results project survey db =
      results_found (get_survey project survey db) survey (responses_to project survey db)
