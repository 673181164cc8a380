-- ===== src/Survey/Due.antt =====
-- The surveys that the server schedules (DueSurveys and MarkSurveyShown, internal/store/surveys.go).
pub mod Marked
use sightpane.Prelude.{
  ℕ, ◌+◌, ◌*◌, ◌==◌, Bool, true, false, not, ◌&&◌, ◌||◌, Option, none, some, List, [], ◌∷◌, ◌++◌,
  find, keep, update_where, if◌then◌else◌, leb, ltb, later,
}
use sightpane.Prelude.Int.{ℤ, pos, negsuc}
use sightpane.Prelude.Text.{Text, codes, text_eq, is_empty}
use sightpane.Survey.{
  second, survey_due_window, SurveyLib, Survey, SurveyShown, Session, Item, SurveyDb,
  survey_not_found, session_not_found, Result, done, failed,
}
use sightpane.Survey.Table.{list_surveys, get_survey, session_user}

unfoldable pub survey_user_key : Text → Text → Text
survey_user_key session user = if is_empty user then codes "s:" ++ session else codes "u:" ++ user

-- from <= ts && ts <= to, where `to` is `now` less the delay and `from` a window before it.
unfoldable pub in_window : ℕ → ℤ → ℕ → Bool
in_window now (pos d) ts =
    leb (ts + d * second) now && leb now (ts + d * second + survey_due_window)
in_window now (negsuc d) ts =
    leb ts (now + (d + 1) * second) && leb (now + (d + 1) * second) (ts + survey_due_window)

-- The item's session is one of the user: a join on the id of the session.
is_by_user : List Session → Text → Item → Bool
is_by_user [] user i = false
is_by_user (se ∷ ses) user i =
    text_eq se.id i.session_id && text_eq se.user_id user || is_by_user ses user i

-- The row of a survey and a person.
unfoldable pub is_shown : ℕ → Text → SurveyShown → Bool
is_shown survey key h = h.survey_id == survey && text_eq h.user_key key

unfoldable pub shown_at_of : Option SurveyShown → Option ℕ
shown_at_of none = none
shown_at_of (some h) = some h.shown_at

unfoldable pub shown_to : ℕ → Text → List SurveyShown → Option ℕ
unfolding is_shown shown_at_of
shown_to survey key shown = shown_at_of (find (is_shown survey key) shown)

-- !shown.Time.Before(last.Time)
unfoldable pub shown_since : Option ℕ → ℕ → Bool
shown_since none last = false
shown_since (some t) last = not (ltb t last)

-- The last trigger, if any, has not been shown.
unfoldable pub is_unshown : Option ℕ → Option ℕ → Bool
unfolding shown_since
is_unshown none shown = false
is_unshown (some last) shown = not (shown_since shown last)

-- max(ts) over the rows that pass a test.
unfoldable pub max_ts : (Item → Bool) → Option ℕ → List Item → Option ℕ
unfolding later
max_ts p best [] = best
max_ts p best (i ∷ is) = max_ts p (if p i then later best i.ts else best) is

-- INSERT ... ON CONFLICT (survey_id, user_key) DO UPDATE
unfoldable pub upsert_found : Option SurveyShown → SurveyShown → List SurveyShown → List SurveyShown
unfolding is_shown
upsert_found none h shown = shown ++ h ∷ []
upsert_found (some old) h shown =
    update_where (is_shown h.survey_id h.user_key) (λ r. record r { shown_at = h.shown_at }) shown

unfoldable pub upsert_shown : SurveyShown → List SurveyShown → List SurveyShown
unfolding upsert_found is_shown
upsert_shown h shown = upsert_found (find (is_shown h.survey_id h.user_key) shown) h shown

module _ {lib : SurveyLib} where
  -- The rows that trigger a survey for a person in its window.
  unfoldable pub is_trigger : List Session → ℕ → ℕ → Text → Text → Survey lib → Item → Bool
  unfolding in_window is_by_user
  is_trigger sessions project now session user s i =
      i.project_id == project
      && text_eq i.kind (codes "event")
      && text_eq i.name s.targeting.event_trigger
      && (if is_empty user then text_eq i.session_id session else is_by_user sessions user i)
      && in_window now s.targeting.delay_seconds i.ts

  unfoldable pub is_scheduled : Survey lib → Bool
  is_scheduled s =
      s.active && s.targeting.server_scheduled && not (is_empty s.targeting.event_trigger)

  unfoldable pub is_due : ℕ → ℕ → Text → Text → SurveyDb lib → Survey lib → Bool
  unfolding is_trigger is_scheduled max_ts shown_to is_unshown survey_user_key
  is_due project now session user db s =
      is_scheduled s
      && is_unshown (max_ts (is_trigger db.sessions project now session user s) none db.items)
          (shown_to s.id (survey_user_key session user) db.shown)

  unfoldable pub due_to : Option Text → ℕ → Text → ℕ → SurveyDb lib → List (Survey lib)
  unfolding is_due list_surveys
  due_to none project session now db = []
  due_to (some user) project session now db =
      keep (is_due project now session user db) (list_surveys project db)

  unfoldable pub due_surveys : ℕ → Text → ℕ → SurveyDb lib → List (Survey lib)
  unfolding due_to session_user
  due_surveys project session now db =
      due_to (session_user project session db) project session now db

  unfoldable pub mark_to :
      Option (Survey lib) → Option Text → ℕ → Text → ℕ → SurveyDb lib → Result (SurveyDb lib)
  unfolding upsert_shown survey_user_key
  mark_to none user survey session now db = failed survey_not_found
  mark_to (some s) none survey session now db = failed session_not_found
  mark_to (some s) (some user) survey session now db = done (record db {
    shown =
        upsert_shown
          (record { survey_id = survey; user_key = survey_user_key session user; shown_at = now })
          db.shown;
  })

  unfoldable pub mark_survey_shown : ℕ → ℕ → Text → ℕ → SurveyDb lib → Result (SurveyDb lib)
  unfolding mark_to get_survey session_user
  mark_survey_shown project survey session now db =
      mark_to (get_survey project survey db) (session_user project session db) survey session now db
