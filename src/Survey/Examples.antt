-- ===== src/Survey/Examples.antt =====
-- Surveys at concrete inputs.
use sightpane.Prelude.{
  ℕ, ◌+◌, ◌*◌, ◌≡◌, refl, true, ◌&&◌, List, [], ◌∷◌, arith, none, some, length, keep, find,
}
use sightpane.Prelude.Int.{ℤ, pos}
use sightpane.Prelude.Text.{Text, codes, text_eq, is_empty}
use sightpane.Survey.{second, SurveyLib, Survey, SurveyResponse, SurveyDb, Item, done, failed}
use sightpane.Survey.Table.{create_survey, session_user}
use sightpane.Survey.Due.{due_surveys, mark_survey_shown, is_due, is_scheduled, is_trigger}
use sightpane.Survey.Due.Marked.{has_newer, marked_until_trigger}
use sightpane.Survey.Results.{SurveyResults, no_results, nps_results, count_scores}
use sightpane.Survey.Results.Buckets.{sum_counts, is_scored, nps_results-AddUp}

-- Integers for float64, whose quotients are 0.
abbrev lib : SurveyLib
lib = record {
  F = ℤ;
  of_ℤ = λ z. z;
  quotient = λ a b. pos 0;
  times_100 = λ a. a;
  average = λ zs. pos 0;
}

abbrev checkout : Survey lib
checkout = record {
  id = 0;
  project_id = 7;
  name = codes "Checkout";
  kind = codes "nps";
  question = codes "Would you recommend us?";
  description = [];
  choices = [];
  targeting = record {
    url_pattern = [];
    event_trigger = codes "paid";
    sample_rate = pos 1;
    delay_seconds = pos 30;
    server_scheduled = true;
  };
  active = true;
  created_at = 0;
  updated_at = 0;
}

abbrev paid : Text → ℕ → Item
paid session ts = record {
  project_id = 7;
  session_id = codes "phone";
  kind = codes "event";
  name = codes "paid";
  ts = ts;
}

-- Ann has a session on her phone and one on her laptop; she paid on the phone.
abbrev start : SurveyDb lib
start = record {
  surveys = [];
  next_survey = 1;
  responses = [];
  next_response = 1;
  shown = [];
  sessions =
      record { id = codes "phone"; project_id = 7; user_id = codes "ann" }
      ∷ record { id = codes "laptop"; project_id = 7; user_id = codes "ann" }
      ∷ [];
  items = paid (codes "phone") (10 * second) ∷ [];
}

abbrev asked : SurveyDb lib
asked = elim (create_survey checkout 5 start) [ done (db, s) ↦ db | failed e ↦ start ]

abbrev row : Survey lib
row = elim (create_survey checkout 5 start) [ done (db, s) ↦ s | failed e ↦ checkout ]

abbrev marked : SurveyDb lib
marked = elim (mark_survey_shown 7 1 (codes "phone") (41 * second) asked) [
  | done db ↦ db
  | failed e ↦ asked
]

-- She pays again a minute later.
abbrev paid_again : SurveyDb lib
paid_again = record marked {
  items = paid (codes "phone") (10 * second) ∷ paid (codes "phone") (70 * second) ∷ [];
}

due_on_laptop : length (due_surveys 7 (codes "laptop") (40 * second) asked) ≡ 1
unfolding due_surveys find create_survey text_eq keep is_empty
due_on_laptop = refl

not_due_yet : due_surveys 7 (codes "laptop") (39 * second) asked ≡ []
unfolding due_surveys find create_survey text_eq keep is_empty
not_due_yet = refl

not_due_again : due_surveys 7 (codes "laptop") (50 * second) marked ≡ []
unfolding due_surveys find mark_survey_shown create_survey text_eq keep is_empty
not_due_again = refl

due_again : length (due_surveys 7 (codes "laptop") (100 * second) paid_again) ≡ 1
unfolding due_surveys find mark_survey_shown create_survey text_eq keep is_empty
due_again = refl

marked_until_trigger_example :
    is_due 7 (100 * second) (codes "laptop") (codes "ann") paid_again row ≡ (
      is_scheduled row
      && has_newer
          (is_trigger paid_again.sessions 7 (100 * second) (codes "laptop") (codes "ann") row)
          (41 * second)
          paid_again.items)
unfolding session_user find create_survey text_eq mark_survey_shown is_empty
marked_until_trigger_example =
    marked_until_trigger 7 1 (codes "phone") (codes "ann") (41 * second) asked marked refl refl
      paid_again refl row refl (codes "laptop") refl (100 * second)

abbrev answer : ℕ → ℤ → SurveyResponse
answer id score = record {
  id = id;
  survey_id = 1;
  project_id = 7;
  session_id = none;
  user_id = codes "ann";
  score = some score;
  response_text = [];
  created_at = 0;
}

abbrev answers : List SurveyResponse
answers = answer 1 (pos 10) ∷ answer 2 (pos 7) ∷ answer 3 (pos 0) ∷ []

abbrev blank : SurveyResults lib
blank = no_results lib 1 (codes "nps") 3

abbrev nps : List SurveyResponse → SurveyResults lib
nps rs = nps_results lib rs blank

nps_results-AddUp_example :
    (sum_counts (nps answers).distribution
      ≡ (nps answers).promoters_count
        + (nps answers).passives_count
        + (nps answers).detractors_count)
    × ((nps answers).promoters_count + (nps answers).passives_count + (nps answers).detractors_count
        ≡ count_scores is_scored answers)
nps_results-AddUp_example =
    nps_results-AddUp lib answers blank (omega arith, (omega arith, (omega arith, tt)))

-- An answer of 11 is taken and is a promoter in no bucket.
promoter_of_eleven : (nps (answer 4 (pos 11) ∷ [])).promoters_count ≡ 1
unfolding nps_results keep
promoter_of_eleven = refl

no_bucket_of_eleven : sum_counts (nps (answer 4 (pos 11) ∷ [])).distribution ≡ 0
unfolding sum_counts nps_results keep
no_bucket_of_eleven = refl
