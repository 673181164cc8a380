-- ===== src/Survey.antt =====
-- Surveys (internal/store/surveys.go): the rows of surveys, of the answers and of what was shown, with
-- the rows of sessions and items that the store reads beside them.
pub mod Table
pub mod Due
pub mod Results
mod Examples
use sightpane.Prelude.{ℕ, ◌*◌, Bool, Option, List}
use sightpane.Prelude.Int.{ℤ}
use sightpane.Prelude.Text.{Text}

abbrev pub second : ℕ
second = 1000000000

-- SurveyDueWindow
abbrev pub survey_due_window : ℕ
survey_due_window = 24 * 3600 * second

-- `F` is float64 with the conversion from int, the quotient, and the product with 100; `average` is
-- PostgreSQL's AVG, 0 of no number.
pub record SurveyLib : Type 1 where
  pub F : Type 0
  pub of_ℤ : ℤ → F
  pub quotient : F → F → F
  pub times_100 : F → F
  pub average : List ℤ → F

pub record SurveyTargeting (lib : SurveyLib) : Type 0 where
  pub url_pattern : Text
  pub event_trigger : Text
  pub sample_rate : lib.F
  pub delay_seconds : ℤ
  pub server_scheduled : Bool

pub record Survey (lib : SurveyLib) : Type 0 where
  pub id : ℕ
  pub project_id : ℕ
  pub name : Text
  pub kind : Text
  pub question : Text
  pub description : Text
  pub choices : List Text
  pub targeting : SurveyTargeting lib
  pub active : Bool
  pub created_at : ℕ
  pub updated_at : ℕ

pub record SurveyResponse : Type 0 where
  pub id : ℕ
  pub survey_id : ℕ
  pub project_id : ℕ
  pub session_id : Option Text
  pub user_id : Text
  pub score : Option ℤ
  pub response_text : Text
  pub created_at : ℕ

pub record SurveyShown : Type 0 where
  pub survey_id : ℕ
  pub user_key : Text
  pub shown_at : ℕ

-- What is read of a session and of an item.
pub record Session : Type 0 where
  pub id : Text
  pub project_id : ℕ
  pub user_id : Text

pub record Item : Type 0 where
  pub project_id : ℕ
  pub session_id : Text
  pub kind : Text
  pub name : Text
  pub ts : ℕ

pub record SurveyDb (lib : SurveyLib) : Type 0 where
  pub surveys : List (Survey lib)
  pub next_survey : ℕ
  pub responses : List SurveyResponse
  pub next_response : ℕ
  pub shown : List SurveyShown
  pub sessions : List Session
  pub items : List Item

-- `refused_row` is a CHECK or a foreign key that refuses the row.
pub data SurveyError : Type 0 where
  survey_not_found session_not_found refused_row : SurveyError

pub data Result (A : Type 0) : Type 0 where
  done : A → Result A
  failed : SurveyError → Result A
