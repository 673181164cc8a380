-- ===== src/Survey/Due/Marked.antt =====
-- A survey that was shown is due again only for a newer trigger.
use sightpane.Prelude.{
  ℕ, ◌≡◌, refl, ap, sym, ◌∙◌, Bool, true, false, ◌&&◌, ◌||◌, inl, inr, Option, none, some, List, [],
  ◌∷◌, ◌++◌, find, find-update_where, if◌then◌else◌, ltb, later, arith, Bool-cases, Option-cases,
}
use sightpane.Prelude.Text.{Text, text_eq_refl}
use sightpane.Survey.{SurveyLib, Survey, SurveyShown, Item, SurveyDb, done, failed, Result}
use sightpane.Survey.Table.{get_survey, session_user}
use sightpane.Survey.Due.{
  survey_user_key, is_shown, shown_at_of, shown_since, is_unshown, max_ts, upsert_found,
  upsert_shown, is_trigger, is_scheduled, shown_to, is_due, mark_to, mark_survey_shown,
}

-- Some row passes the test and is newer than an instant.
unfoldable pub has_newer : (Item → Bool) → ℕ → List Item → Bool
has_newer p t [] = false
has_newer p t (i ∷ is) = p i && ltb t i.ts || has_newer p t is

is_unshown-later :
    (best : Option ℕ) (b : Bool) (u t : ℕ)
    → is_unshown (if b then later best u else best) (some t)
      ≡ (is_unshown best (some t) || b && ltb t u)
unfolding is_unshown shown_since later
is_unshown-later none b u t = ground arith
is_unshown-later (some s) b u t = ground arith

||_assoc : (a b c : Bool) → (a || b || c) ≡ (a || (b || c))
||_assoc a b c = ground arith

is_unshown-max_ts :
    (p : Item → Bool) (t : ℕ) (is : List Item) (best : Option ℕ)
    → is_unshown (max_ts p best is) (some t) ≡ (is_unshown best (some t) || has_newer p t is)
unfolding max_ts has_newer
is_unshown-max_ts p t [] best = ground arith
is_unshown-max_ts p t (i ∷ is) best =
    is_unshown-max_ts p t is (if p i then later best i.ts else best)
    ∙ rw (is_unshown-later best (p i) i.ts t) (ground arith)

find-append_none :
    {A : Type 0} (p : A → Bool) (xs : List A) (x : A)
    → find p xs ≡ none
    → p x ≡ true
    → find p (xs ++ x ∷ []) ≡ some x
unfolding find
find-append_none p [] x h e = rw e refl
find-append_none p (y ∷ xs) x h e = elim (Bool-cases (p y)) [
  | inl k ↦ let g = rw k at h in cc
  | inr k ↦ rw k (find-append_none p xs x (rw k at h) e)
]

-- After an upsert the row holds what was written.
shown_to-upsert_shown :
    (h : SurveyShown) (shown : List SurveyShown)
    → shown_to h.survey_id h.user_key (upsert_shown h shown) ≡ some h.shown_at
unfolding shown_to upsert_shown upsert_found is_shown shown_at_of
shown_to-upsert_shown h shown =
    let p : SurveyShown → Bool = λ r. is_shown h.survey_id h.user_key r in
    elim (Option-cases (find p shown)) [
      | inl e ↦
          let same : p h ≡ true = ground (arith, text_eq_refl h.user_key) in
          rw (e, find-append_none p shown h e same) refl
      | inr (r, e) ↦
          rw (e, find-update_where p (λ x. record x { shown_at = h.shown_at }) shown (λ x. refl), e)
            refl
    ]

abbrev shown_of : {lib : SurveyLib} → Result (SurveyDb lib) → List SurveyShown
shown_of (done db) = db.shown
shown_of (failed e) = []

is_due-shown_to :
    {lib : SurveyLib} (project now t : ℕ) (session user : Text) (db : SurveyDb lib) (s : Survey lib)
    → shown_to s.id (survey_user_key session user) db.shown ≡ some t
    → is_due project now session user db s
      ≡ (is_scheduled s && has_newer (is_trigger db.sessions project now session user s) t db.items)
unfolding is_due is_unshown
is_due-shown_to project now t session user db s h =
    rw (h, is_unshown-max_ts (is_trigger db.sessions project now session user s) t db.items none)
      refl

-- Once a survey has been marked as shown at an instant to the person of a session, it is due for this
-- person, in any session, at any later question and whatever was ingested since (as long as the table
-- of shown surveys is as it was left), exactly when it is scheduled and some trigger of it in its
-- window is newer than the mark.
pub marked_until_trigger :
    {lib : SurveyLib} (project survey : ℕ) (session user : Text) (now : ℕ) (db db' : SurveyDb lib)
    → session_user project session db ≡ some user
    → mark_survey_shown project survey session now db ≡ done db'
    → (after : SurveyDb lib) → after.shown ≡ db'.shown
    → (s : Survey lib) → s.id ≡ survey
    → (session2 : Text) → survey_user_key session2 user ≡ survey_user_key session user
    → (now2 : ℕ)
    → is_due project now2 session2 user after s ≡ (
        is_scheduled s
        && has_newer (is_trigger after.sessions project now2 session2 user s) now after.items)
unfolding mark_survey_shown mark_to
marked_until_trigger project survey session user now db db' u m after kept s same session2 key
      now2 =
    elim (Option-cases (get_survey project survey db)) [
      | inl e ↦ let h = rw e at m in cc
      | inr (row, e) ↦
          let written : _ ≡ db'.shown = ap shown_of (rw (e, u) at m) in
          is_due-shown_to project now2 now session2 user after s
            (rw (same, key, kept, sym written) (shown_to-upsert_shown _ db.shown))
    ]
