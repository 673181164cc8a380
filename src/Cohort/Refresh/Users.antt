-- ===== src/Cohort/Refresh/Users.antt =====
-- Who the users of a list of rules are, and that each stands once.
use sightpane.Prelude.{
  ℕ, ◌*◌, ◌+◌, ◌≤◌, ◌==◌, ◌≡◌, refl, ap, ◌∙◌, Bool, true, false, not, ◌&&◌, inl, inr, List, [], ◌∷◌,
  keep, All, All-keep, arith, Bool-cases, leb,
}
use sightpane.Prelude.Text.{Text, text_eq, text_eq_iff}
use sightpane.Prelude.Keys.{HasKeys}
use sightpane.Cohort.{day, CohortLib, CohortRule, CohortDb, Session, Item}
use sightpane.Cohort.Count.{
  eval_count, is_recent, window_of, session_rows, item_rows, rows_of, is_in, distinct, count_of,
  passes, rule_users, is_refused,
}
use sightpane.Cohort.Refresh.{intersect, matching_users}

-- The user has rows for each rule, in a number that the rule accepts.
unfoldable pub satisfies : CohortLib → ℕ → ℕ → CohortDb → Text → List CohortRule → Bool
satisfies lib project now db u [] = true
satisfies lib project now db u (r ∷ rs) =
    not (count_of u (rows_of lib project now db r) == 0)
    && eval_count (count_of u (rows_of lib project now db r)) r.operator r.count
    && satisfies lib project now db u rs

is_in-keep :
    (p : Text → Bool) (u : Text) (ts : List Text) → is_in u (keep p ts) ≡ (is_in u ts && p u)
unfolding is_in keep
is_in-keep p u [] = refl
is_in-keep p u (t ∷ ts) = elim (Bool-cases (text_eq t u)) [
  | inl e ↦ let same = ap p ((text_eq_iff t u).0 e) in ground (arith, is_in-keep p u ts)
  | inr e ↦ ground (arith, is_in-keep p u ts)
]

is_in-count_of : (u : Text) (ts : List Text) → is_in u ts ≡ not (count_of u ts == 0)
unfolding is_in count_of keep
is_in-count_of u [] = refl
is_in-count_of u (t ∷ ts) = ground (arith, is_in-count_of u ts)

is_in_eq : (t u : Text) (ts : List Text) → text_eq t u ≡ true → is_in t ts ≡ is_in u ts
is_in_eq t u ts e = ap (λ x. is_in x ts) ((text_eq_iff t u).0 e)

is_in-distinct : (u : Text) (ts : List Text) → is_in u (distinct ts) ≡ is_in u ts
unfolding is_in distinct
is_in-distinct u [] = refl
is_in-distinct u (t ∷ ts) = elim (Bool-cases (text_eq t u)) [
  | inl e ↦ ground (arith, is_in-distinct u ts, is_in_eq t u ts e)
  | inr e ↦ ground (arith, is_in-distinct u ts)
]

module _ (lib : CohortLib) (project now : ℕ) (db : CohortDb) (u : Text) where
  is_in-rule_users :
      (r : CohortRule)
      → is_in u (rule_users lib project now db r) ≡ (
          not (count_of u (rows_of lib project now db r) == 0)
          && eval_count (count_of u (rows_of lib project now db r)) r.operator r.count)
  unfolding rule_users passes
  is_in-rule_users r =
      let rows = rows_of lib project now db r in
      is_in-keep (passes r rows) u (distinct rows)
      ∙ rw (is_in-distinct u rows, is_in-count_of u rows) refl

  is_in-intersect :
      (rs : List CohortRule) (users : List Text)
      → is_in u (intersect lib project now db rs users)
        ≡ (is_in u users && satisfies lib project now db u rs)
  unfolding intersect satisfies
  is_in-intersect [] users = ground arith
  is_in-intersect (r ∷ rs) users =
      is_in-intersect rs (keep (λ t. is_in t (rule_users lib project now db r)) users)
      ∙ rw (is_in-keep (λ t. is_in t (rule_users lib project now db r)) u users, is_in-rule_users r)
          (ground arith)

  pub is_in-matching_users :
      (r : CohortRule) (rs : List CohortRule)
      → is_in u (matching_users lib project now db (r ∷ rs))
        ≡ satisfies lib project now db u (r ∷ rs)
  unfolding matching_users satisfies
  is_in-matching_users r rs =
      is_in-intersect rs (rule_users lib project now db r) ∙ rw (is_in-rule_users r) (ground arith)

-- No text stands twice.
abbrev pub IsDistinct : List Text → Type 0
IsDistinct = HasKeys (λ u. u)

pub is_in_none :
    (u : Text) (ts : List Text) → is_in u ts ≡ false → All (λ t. text_eq t u ≡ false) ts
unfolding is_in
is_in_none u [] h = tt
is_in_none u (t ∷ ts) h = (ground arith, is_in_none u ts (ground arith))

distinct-IsDistinct : (ts : List Text) → IsDistinct (distinct ts)
unfolding distinct
distinct-IsDistinct [] = tt
distinct-IsDistinct (t ∷ ts) = elim (Bool-cases (is_in t ts)) [
  | inl e ↦ rw e (distinct-IsDistinct ts)
  | inr e ↦ rw e (is_in_none t (distinct ts) (is_in-distinct t ts ∙ e), distinct-IsDistinct ts)
]

keep-IsDistinct : (p : Text → Bool) (ts : List Text) → IsDistinct ts → IsDistinct (keep p ts)
unfolding keep
keep-IsDistinct p [] d = tt
keep-IsDistinct p (t ∷ ts) (d, ds) = elim (Bool-cases (p t)) [
  | inl e ↦ rw e (All-keep (λ y. text_eq y t ≡ false) p ts d, keep-IsDistinct p ts ds)
  | inr e ↦ rw e (keep-IsDistinct p ts ds)
]

module _ (lib : CohortLib) (project now : ℕ) (db : CohortDb) where
  intersect-IsDistinct :
      (rs : List CohortRule) (users : List Text)
      → IsDistinct users
      → IsDistinct (intersect lib project now db rs users)
  unfolding intersect
  intersect-IsDistinct [] users d = d
  intersect-IsDistinct (r ∷ rs) users d =
      intersect-IsDistinct rs _
        (keep-IsDistinct (λ u. is_in u (rule_users lib project now db r)) users d)

  pub matching_users-IsDistinct :
      (r : CohortRule) (rs : List CohortRule)
      → IsDistinct (matching_users lib project now db (r ∷ rs))
  unfolding matching_users rule_users
  matching_users-IsDistinct r rs =
      intersect-IsDistinct rs _ (keep-IsDistinct _ _ (distinct-IsDistinct _))

-- Windows as so many days before an instant.
abbrev pub exact : CohortLib
exact = record { refuses = λ now days. false; since = λ now days ts. leb now (ts + days * day) }

-- The database takes windows of up to a million days as they are.
abbrev pub CountsDays : CohortLib → Type 0
CountsDays lib =
    (now days ts : ℕ)
    → days ≤ 1_000_000
    → (lib.refuses now days ≡ false) × (lib.since now days ts ≡ leb now (ts + days * day))

-- A window of a rule that is not longer.
abbrev pub IsShort : CohortRule → Type 0
IsShort r = window_of r.window_days ≤ 1_000_000

module _ (lib : CohortLib) (project now : ℕ) (counts : CountsDays lib) where
  pub is_refused_none : (rs : List CohortRule) → All IsShort rs → is_refused lib now rs ≡ false
  unfolding is_refused
  is_refused_none [] short = refl
  is_refused_none (r ∷ rs) (h, hs) =
      let ok = (counts now (window_of r.window_days) 0 h).0 in rw (ok, is_refused_none rs hs) refl

  module _ (r : CohortRule) (short : IsShort r) where
    session_rows-exact :
        (ses : List Session)
        → session_rows lib project now r ses ≡ session_rows exact project now r ses
    unfolding session_rows is_recent
    session_rows-exact [] = refl
    session_rows-exact (se ∷ ses) =
        rw ((counts now (window_of r.window_days) se.started_at short).1, session_rows-exact ses)
          refl

    item_rows-exact :
        (sessions : List Session) (is : List Item)
        → item_rows lib sessions project now r is ≡ item_rows exact sessions project now r is
    unfolding item_rows is_recent
    item_rows-exact sessions [] = refl
    item_rows-exact sessions (i ∷ is) =
        rw ((counts now (window_of r.window_days) i.ts short).1, item_rows-exact sessions is) refl

    rows_of-exact : (db : CohortDb) → rows_of lib project now db r ≡ rows_of exact project now db r
    unfolding rows_of
    rows_of-exact db =
        rw (session_rows-exact db.sessions, item_rows-exact db.sessions db.items) refl

  pub satisfies-exact :
      (db : CohortDb) (u : Text) (rs : List CohortRule)
      → All IsShort rs
      → satisfies lib project now db u rs ≡ satisfies exact project now db u rs
  unfolding satisfies
  satisfies-exact db u [] short = refl
  satisfies-exact db u (r ∷ rs) (h, hs) = rw (rows_of-exact r h db, satisfies-exact db u rs hs) refl
