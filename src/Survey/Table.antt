-- ===== src/Survey/Table.antt =====
-- The operations on surveys and answers (internal/store/surveys.go).
use sightpane.Prelude.{
  ℕ, ◌+◌, ◌==◌, Bool, not, ◌&&◌, ◌||◌, Option, none, some, List, [], ◌∷◌, ◌++◌, find, keep,
  update_where, if◌then◌else◌, ltb, zero, suc,
}
use sightpane.Prelude.Int.{ℤ, pos, negsuc}
use sightpane.Prelude.Text.{Text, codes, text_eq}
use sightpane.Survey.{
  SurveyLib, Survey, SurveyResponse, Session, SurveyDb, survey_not_found, refused_row, Result, done,
  failed,
}

-- CHECK (type IN (...))
is_survey_type : Text → Bool
is_survey_type t =
    text_eq t (codes "nps")
    || text_eq t (codes "csat")
    || text_eq t (codes "rating")
    || text_eq t (codes "open_text")
    || text_eq t (codes "single_choice")

is_session : Text → ℕ → Session → Bool
is_session id project se = text_eq se.id id && se.project_id == project

-- SELECT user_id FROM sessions
user_of : Option Session → Option Text
user_of none = none
user_of (some se) = some se.user_id

-- ORDER BY created_at DESC, in the order of the rows where the instants are the same.
insert_newest : {A : Type 0} → (A → ℕ) → A → List A → List A
insert_newest at x [] = x ∷ []
insert_newest at x (y ∷ ys) =
    let rest = insert_newest at x ys in if ltb (at x) (at y) then y ∷ rest else x ∷ y ∷ ys

unfoldable pub newest_first : {A : Type 0} → (A → ℕ) → List A → List A
unfolding insert_newest
newest_first at [] = []
newest_first at (x ∷ xs) = insert_newest at x (newest_first at xs)

-- LIMIT
abbrev first_rows : {A : Type 0} → ℕ → List A → List A
first_rows n [] = []
first_rows zero (x ∷ xs) = []
first_rows (suc n) (x ∷ xs) = x ∷ first_rows n xs

-- if limit <= 0 || limit > 500 { limit = 100 }
limit_of : ℤ → ℕ
limit_of (pos n) = if n == 0 || ltb 500 n then 100 else n
limit_of (negsuc n) = 100

module _ {lib : SurveyLib} where
  unfoldable pub is_survey : ℕ → ℕ → Survey lib → Bool
  is_survey project id s = s.project_id == project && s.id == id

  unfoldable pub list_surveys : ℕ → SurveyDb lib → List (Survey lib)
  unfolding newest_first
  list_surveys project db =
      newest_first (λ s. s.created_at) (keep (λ s. s.project_id == project) db.surveys)

  unfoldable pub get_survey : ℕ → ℕ → SurveyDb lib → Option (Survey lib)
  unfolding is_survey
  get_survey project id db = find (is_survey project id) db.surveys

  unfoldable pub get_active_surveys_for_client : ℕ → SurveyDb lib → List (Survey lib)
  unfolding newest_first
  get_active_surveys_for_client project db =
      newest_first (λ s. s.created_at) (keep (λ s. s.project_id == project && s.active) db.surveys)

  -- The project exists; the id and the instants of `s` are the row's.
  unfoldable pub create_survey : Survey lib → ℕ → SurveyDb lib → Result (SurveyDb lib × Survey lib)
  unfolding is_survey_type
  create_survey s now db =
      let row = record s { id = db.next_survey; created_at = now; updated_at = now } in
      if not (is_survey_type s.kind)
      then failed refused_row
      else done
          (record db { surveys = db.surveys ++ row ∷ []; next_survey = db.next_survey + 1 }, row)

  -- What an UPDATE sets.
  overwrite : Survey lib → ℕ → Survey lib → Survey lib
  overwrite s now row = record row {
    name = s.name;
    kind = s.kind;
    question = s.question;
    description = s.description;
    choices = s.choices;
    targeting = s.targeting;
    active = s.active;
    updated_at = now;
  }

  update_found :
      Option (Survey lib) → Survey lib → ℕ → SurveyDb lib → Result (SurveyDb lib × Survey lib)
  unfolding is_survey_type is_survey overwrite
  update_found none s now db = failed survey_not_found
  update_found (some old) s now db =
      if not (is_survey_type s.kind)
      then failed refused_row
      else done (
        record db {
          surveys = update_where (is_survey s.project_id s.id) (overwrite s now) db.surveys;
        },
        record s { updated_at = now },
      )

  unfoldable pub update_survey : Survey lib → ℕ → SurveyDb lib → Result (SurveyDb lib × Survey lib)
  unfolding update_found get_survey
  update_survey s now db = update_found (get_survey s.project_id s.id db) s now db

  -- The answers and what was shown go with it: ON DELETE CASCADE.
  delete_found : Option (Survey lib) → ℕ → ℕ → SurveyDb lib → Result (SurveyDb lib)
  unfolding is_survey
  delete_found none project id db = failed survey_not_found
  delete_found (some s) project id db = done (record db {
    surveys = keep (λ q. not (is_survey project id q)) db.surveys;
    responses = keep (λ r. not (r.survey_id == id)) db.responses;
    shown = keep (λ h. not (h.survey_id == id)) db.shown;
  })

  unfoldable pub delete_survey : ℕ → ℕ → SurveyDb lib → Result (SurveyDb lib)
  unfolding delete_found get_survey
  delete_survey project id db = delete_found (get_survey project id db) project id db

  -- (SELECT id FROM sessions WHERE id = $3 AND project_id = $2)
  link : Option Text → ℕ → SurveyDb lib → Option Text
  unfolding is_session
  link none project db = none
  link (some id) project db = elim (find (is_session id project) db.sessions) [
    | none ↦ none
    | some se ↦ some se.id
  ]

  -- The survey exists (a foreign key), in any project.
  submit_found :
      Option (Survey lib)
      → SurveyResponse
      → ℕ
      → SurveyDb lib
      → Result (SurveyDb lib × SurveyResponse)
  unfolding link
  submit_found none r now db = failed refused_row
  submit_found (some s) r now db =
      let row = record r {
        id = db.next_response;
        session_id = link r.session_id r.project_id db;
        created_at = now;
      } in
      done (
        record db { responses = db.responses ++ row ∷ []; next_response = db.next_response + 1 },
        row,
      )

  unfoldable pub submit_survey_response :
      SurveyResponse → ℕ → SurveyDb lib → Result (SurveyDb lib × SurveyResponse)
  unfolding submit_found
  submit_survey_response r now db =
      submit_found (find (λ s. s.id == r.survey_id) db.surveys) r now db

  unfoldable pub responses_to : ℕ → ℕ → SurveyDb lib → List SurveyResponse
  responses_to project survey db =
      keep (λ r. r.project_id == project && r.survey_id == survey) db.responses

  unfoldable pub list_survey_responses : ℕ → ℕ → ℤ → SurveyDb lib → List SurveyResponse
  unfolding newest_first responses_to limit_of
  list_survey_responses project survey limit db =
      first_rows (limit_of limit)
        (newest_first (λ r. r.created_at) (responses_to project survey db))

  -- sessionUser
  unfoldable pub session_user : ℕ → Text → SurveyDb lib → Option Text
  unfolding is_session user_of
  session_user project session db = user_of (find (is_session session project) db.sessions)
