-- ===== src/Cohort/Refresh/Members.antt =====
-- The members of a cohort after a refresh.
use mathlib.Core.List.{append-nil, append_assoc}
use mathlib.Core.Option
use sightpane.Prelude.{
  ℕ, ◌==◌, ◌≡◌, refl, sym, ◌∙◌, true, false, not, ◌&&◌, ◌||◌, inl, inr, none, some, List, [], ◌∷◌,
  ◌++◌, find, keep, length, All, All-mono, All-both, if◌then◌else◌, arith, Bool-cases,
  find-update_where_keep, find_sound,
}
use sightpane.Prelude.Text.{Text, text_eq, text_eq_comm}
use sightpane.Cohort.{CohortLib, CohortRule, Cohort, Member, CohortDb}
use sightpane.Cohort.Count.{is_in}
use sightpane.Cohort.Refresh.{
  get_cohort, is_member, put_member, insert_users, matching_users, write_members, refresh_rules,
  refresh_found, refresh_cohort_members,
}
use sightpane.Cohort.Refresh.Users.{
  IsDistinct, matching_users-IsDistinct, satisfies, is_in-matching_users, exact, CountsDays,
  IsShort, is_refused_none, satisfies-exact,
}

-- The user ids of the members of a cohort.
unfoldable pub members_of : ℕ → List Member → List Text
members_of id [] = []
members_of id (m ∷ ms) =
    let rest = members_of id ms in if m.cohort_id == id then m.user_id ∷ rest else rest

members_of-snoc :
    (id : ℕ) (u : Text) (ms : List Member)
    → members_of id (ms ++ record { cohort_id = id; user_id = u } ∷ []) ≡ members_of id ms ++ u ∷ []
unfolding members_of
members_of-snoc id u [] = let e : (id == id) ≡ true = ground arith in rw e refl
members_of-snoc id u (m ∷ ms) = elim (Bool-cases (m.cohort_id == id)) [
  | inl e ↦ rw (e, members_of-snoc id u ms) refl
  | inr e ↦ rw (e, members_of-snoc id u ms) refl
]

find-is_member-none :
    (id : ℕ) (u : Text) (ms : List Member)
    → is_in u (members_of id ms) ≡ false
    → find (is_member id u) ms ≡ none
unfolding members_of is_in find is_member
find-is_member-none id u [] h = refl
find-is_member-none id u (m ∷ ms) h = elim (Bool-cases (m.cohort_id == id)) [
  | inl e ↦ ground (arith, find-is_member-none id u ms)
  | inr e ↦ rw e (find-is_member-none id u ms (rw e at h))
]

is_in-snoc : (u t : Text) (ts : List Text) → is_in u (ts ++ t ∷ []) ≡ (is_in u ts || text_eq t u)
unfolding is_in
is_in-snoc u t [] = ground arith
is_in-snoc u t (s ∷ ts) = ground (arith, is_in-snoc u t ts)

-- Users of whom none is a member are inserted one after another.
members_of-insert_users :
    (id : ℕ) (us : List Text) (ms : List Member)
    → IsDistinct us
    → All (λ u. is_in u (members_of id ms) ≡ false) us
    → members_of id (insert_users id us ms) ≡ members_of id ms ++ us
unfolding insert_users put_member
members_of-insert_users id [] ms d new = sym (append-nil (members_of id ms))
members_of-insert_users id (u ∷ us) ms (d, ds) (h, hs) = rw (find-is_member-none id u ms h) (
    members_of-insert_users id us (ms ++ record { cohort_id = id; user_id = u } ∷ []) ds (
      All-mono (λ t. (text_eq t u ≡ false) × (is_in t (members_of id ms) ≡ false)) _ us
        (λ t (k, e).
          rw (members_of-snoc id u ms)
            (is_in-snoc t u (members_of id ms) ∙ rw (e, text_eq_comm u t ∙ k) refl))
        (All-both (λ t. text_eq t u ≡ false) _ us d hs))
    ∙ rw (members_of-snoc id u ms) (append_assoc (members_of id ms) (u ∷ []) us))

members_of-keep :
    (id : ℕ) (ms : List Member) → members_of id (keep (λ m. not (m.cohort_id == id)) ms) ≡ []
unfolding members_of keep
members_of-keep id [] = refl
members_of-keep id (m ∷ ms) = elim (Bool-cases (m.cohort_id == id)) [
  | inl e ↦ rw e (members_of-keep id ms)
  | inr e ↦ rw (e, e) (members_of-keep id ms)
]

All-is_in_nil : (us : List Text) → All (λ u. is_in u [] ≡ false) us
unfolding is_in
All-is_in_nil [] = tt
All-is_in_nil (u ∷ us) = (refl, All-is_in_nil us)

members_of-write_members :
    (id now : ℕ) (us : List Text) (db : CohortDb)
    → IsDistinct us
    → members_of id (write_members id now us db).members ≡ us
unfolding write_members
members_of-write_members id now us db d =
    let gone = members_of-keep id db.members in
    members_of-insert_users id us (keep (λ m. not (m.cohort_id == id)) db.members) d
      (rw gone (All-is_in_nil us))
    ∙ rw gone refl

-- The count of the row after the transaction.
counted :
    (project id now : ℕ) (users : List Text) (db : CohortDb) {c : Cohort}
    → get_cohort project id db ≡ some c
    → Option.map (λ x. x.user_count) (get_cohort project id (write_members id now users db))
      ≡ some (length users)
unfolding get_cohort write_members
counted project id now users db {c} h =
    let found = find_sound (λ x. x.project_id == project && x.id == id) db.cohorts h in
    let hit : (c.id == id) ≡ true = ground arith in
    rw
      (
        find-update_where_keep (λ x. x.project_id == project && x.id == id) (λ x. x.id == id)
            (λ x. record x {
              user_count = length users;
              last_calculated_at = some now;
              updated_at = now;
            })
            db.cohorts (λ x. refl),
        h,
        hit,
      )
      refl

-- Where the windows of the rules are of at most a million days, which the database takes as they are,
-- a refresh of a cohort that is not static and has rules succeeds. After it a user is a member exactly
-- when, for every rule, the user has some rows in the rule's window and their number passes the rule;
-- no user is a member twice, and the row's count of users is the number of members.
pub is_in-refresh_cohort_members :
    (lib : CohortLib) (project id now : ℕ) (db : CohortDb) (c : Cohort) (r : CohortRule)
    (rs : List CohortRule)
    → CountsDays lib
    → All IsShort (r ∷ rs)
    → get_cohort project id db ≡ some c
    → c.is_static ≡ false
    → c.rules ≡ r ∷ rs
    → (db' : CohortDb) × (refresh_cohort_members lib project id now db ≡ some db')
      × ((u : Text)
          → is_in u (members_of id db'.members) ≡ satisfies exact project now db u (r ∷ rs))
      × IsDistinct (members_of id db'.members)
      × (Option.map (λ x. x.user_count) (get_cohort project id db')
          ≡ some (length (members_of id db'.members)))
unfolding refresh_cohort_members refresh_found refresh_rules
is_in-refresh_cohort_members lib project id now db c r rs counts short found dynamic rules =
    let users = matching_users lib project now db (r ∷ rs) in
    let once = matching_users-IsDistinct lib project now db r rs in
    let same = members_of-write_members id now users db once in
    (
      write_members id now users db,
      rw (found, dynamic, rules, is_refused_none lib project now counts (r ∷ rs) short) refl,
      λ u. rw same (
          is_in-matching_users lib project now db u r rs
          ∙ satisfies-exact lib project now counts db u (r ∷ rs) short),
      rw same once,
      counted project id now users db found ∙ rw same refl,
    )
