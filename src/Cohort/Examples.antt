-- ===== src/Cohort/Examples.antt =====
-- Cohorts at concrete inputs.
use mathlib.Core.Option
use sightpane.Prelude.{
  ℕ, ◌+◌, ltb, leb, arith, none, ◌*◌, ◌≡◌, refl, true, false, List, [], ◌∷◌, some, length, keep,
  find, update_where,
}
use sightpane.Prelude.Int.{pos}
use sightpane.Prelude.Text.{Text, codes, text_eq, is_empty}
use sightpane.Cohort.{day, CohortLib, CohortRule, Cohort, CohortDb}
use sightpane.Cohort.Count.{is_in, window_of}
use sightpane.Cohort.Table.{create_cohort, update_cohort}
use sightpane.Cohort.Refresh.{get_cohort, refresh_cohort_members}
use sightpane.Cohort.Refresh.Members.{members_of, is_in-refresh_cohort_members}
use sightpane.Cohort.Refresh.Users.{IsDistinct, satisfies, exact, CountsDays}

-- Ann has three sessions in 30 days and paid once; Bob has one session and never paid.
abbrev start : CohortDb
start = record {
  cohorts = [];
  next_id = 1;
  members = [];
  sessions =
      record { id = codes "a1"; project_id = 7; user_id = codes "ann"; started_at = 95 * day }
      ∷ record { id = codes "a2"; project_id = 7; user_id = codes "ann"; started_at = 96 * day }
      ∷ record { id = codes "b1"; project_id = 7; user_id = codes "bob"; started_at = 97 * day }
      ∷ record { id = codes "a3"; project_id = 7; user_id = codes "ann"; started_at = 98 * day }
      ∷ [];
  items =
      record {
        project_id = 7;
        session_id = codes "a2";
        kind = codes "event";
        name = codes "paid";
        ts = 96 * day;
      }
      ∷ [];
}

abbrev rule_of : Text → Text → ℕ → CohortRule
rule_of event operator n = record {
  event = event;
  operator = operator;
  count = pos n;
  window_days = pos 0;
}

abbrev active : CohortRule
active = rule_of (codes "session_start") (codes "gte") 2

abbrev pays : CohortRule
pays = rule_of (codes "paid") (codes "gt") 0

-- Those who paid at most once.
abbrev frugal : CohortRule
frugal = rule_of (codes "paid") (codes "lte") 1

abbrev cohort_of : List CohortRule → CohortDb
cohort_of rules = (create_cohort exact 7 (codes "c") [] false rules [] (100 * day) start).0

abbrev row_of : List CohortRule → Cohort
row_of rules = record {
  id = 1;
  project_id = 7;
  name = codes "c";
  description = [];
  is_static = false;
  rules = rules;
  user_count = 1;
  last_calculated_at = some (100 * day);
  created_at = 100 * day;
  updated_at = 100 * day;
}

exact-CountsDays : CountsDays exact
exact-CountsDays now days ts h = (refl, refl)

is_in-refresh_cohort_members_example :
    (db' : CohortDb) × (refresh_cohort_members exact 7 1
        (100 * day)
        (cohort_of (active ∷ pays ∷ []))
      ≡ some db')
    × ((u : Text)
        → is_in u (members_of 1 db'.members)
          ≡ satisfies exact 7 (100 * day) (cohort_of (active ∷ pays ∷ [])) u (active ∷ pays ∷ []))
    × IsDistinct (members_of 1 db'.members)
    × (Option.map (λ x. x.user_count) (get_cohort 7 1 db')
        ≡ some (length (members_of 1 db'.members)))
unfolding get_cohort find create_cohort update_where keep is_empty text_eq window_of
is_in-refresh_cohort_members_example =
    is_in-refresh_cohort_members exact 7 1 (100 * day) (cohort_of (active ∷ pays ∷ []))
      (row_of (active ∷ pays ∷ [])) active (pays ∷ []) exact-CountsDays
      (omega arith, (omega arith, tt)) refl refl refl

ann_only : members_of 1 (cohort_of (active ∷ pays ∷ [])).members ≡ codes "ann" ∷ []
unfolding members_of create_cohort find keep is_empty text_eq
ann_only = refl

-- Bob, who never paid, is no member of those who paid at most once.
frugal_ann : members_of 1 (cohort_of (frugal ∷ [])).members ≡ codes "ann" ∷ []
unfolding members_of create_cohort find keep is_empty text_eq
frugal_ann = refl

-- A cohort whose rules are taken away keeps its members.
stale :
    members_of 1
      (update_cohort exact 7 1 (codes "c") [] [] (101 * day) (cohort_of (pays ∷ []))).0.members
    ≡ codes "ann" ∷ []
unfolding members_of update_cohort find create_cohort update_where keep is_empty text_eq
stale = refl

-- The row of a static cohort counts a repeated and an empty user id.
abbrev listed : CohortDb
listed =
    (create_cohort exact 7 (codes "s") [] true [] (codes "ann" ∷ codes "ann" ∷ [] ∷ []) (100 * day)
      start).0

counts_three : Option.map (λ c. c.user_count) (get_cohort 7 1 listed) ≡ some 3
unfolding get_cohort find create_cohort
counts_three = refl

has_one : members_of 1 listed.members ≡ codes "ann" ∷ []
unfolding members_of create_cohort is_empty find text_eq
has_one = refl

-- Where a window that long is refused, a refresh fails and creating the cohort leaves it empty.
abbrev ranged : CohortLib
ranged = record {
  refuses = λ now days. ltb 2_460_000 days;
  since = λ now days ts. leb now (ts + days * day);
}

abbrev too_long : CohortRule
too_long = record active { window_days = pos 9999999 }

fails : refresh_cohort_members ranged 7 1 (100 * day) (cohort_of (too_long ∷ [])) ≡ none
unfolding refresh_cohort_members create_cohort find text_eq is_empty keep update_where
fails = refl
