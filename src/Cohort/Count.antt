-- ===== src/Cohort/Count.antt =====
-- The users that a rule counts, and evalCount (internal/store/cohorts.go).
use sightpane.Prelude.{
  ℕ, ◌==◌, Bool, false, not, ◌&&◌, ◌||◌, none, some, List, [], ◌∷◌, find, keep, length,
  if◌then◌else◌,
}
use sightpane.Prelude.Int.{ℤ, pos, negsuc, ltb_ℤ}
use sightpane.Prelude.Text.{Text, codes, text_eq, is_empty}
use sightpane.Cohort.{CohortLib, CohortRule, Session, Item, CohortDb}

unfoldable pub eval_count : ℕ → Text → ℤ → Bool
eval_count actual op target =
    let less = ltb_ℤ (pos actual) target in
    let more = ltb_ℤ target (pos actual) in
    if text_eq op (codes "gte")
    then not less
    else if text_eq op (codes "gt")
    then more
    else if text_eq op (codes "lte")
    then not more
    else if text_eq op (codes "lt")
    then less
    else if text_eq op (codes "eq")
    then not less && not more
    else not less

-- The days of the window, 30 where they are not positive.
unfoldable pub window_of : ℤ → ℕ
window_of (pos n) = if n == 0 then 30 else n
window_of (negsuc n) = 30

unfoldable pub is_start : Text → Bool
is_start event = is_empty event || text_eq event (codes "session_start")

-- The user of an item's session in the item's project; the id of a session is unique.
unfoldable pub user_of_item : List Session → Item → Text
user_of_item sessions i =
    elim (find (λ se. text_eq se.id i.session_id && se.project_id == i.project_id) sessions) [
      | none ↦ []
      | some se ↦ se.user_id
    ]

unfoldable pub is_in : Text → List Text → Bool
is_in u [] = false
is_in u (t ∷ ts) = text_eq t u || is_in u ts

-- GROUP BY user_id: each user once, and COUNT(*).
unfoldable pub distinct : List Text → List Text
unfolding is_in
distinct [] = []
distinct (t ∷ ts) = let rest = distinct ts in if is_in t ts then rest else t ∷ rest

unfoldable pub count_of : Text → List Text → ℕ
count_of u ts = length (keep (λ t. text_eq t u) ts)

unfoldable pub passes : CohortRule → List Text → Text → Bool
unfolding eval_count count_of
passes rule rows u = eval_count (count_of u rows) rule.operator rule.count

module _ (lib : CohortLib) where
  -- ts >= cutoff
  unfoldable pub is_recent : ℕ → CohortRule → ℕ → Bool
  unfolding window_of
  is_recent now rule ts = lib.since now (window_of rule.window_days) ts

  -- The user ids of the sessions that the query reads, one for each row.
  unfoldable pub session_rows : ℕ → ℕ → CohortRule → List Session → List Text
  unfolding is_recent
  session_rows project now rule [] = []
  session_rows project now rule (se ∷ ses) =
      let rest = session_rows project now rule ses in
      if se.project_id == project && is_recent now rule se.started_at && not (is_empty se.user_id)
      then se.user_id ∷ rest
      else rest

  unfoldable pub item_rows : List Session → ℕ → ℕ → CohortRule → List Item → List Text
  unfolding is_recent user_of_item
  item_rows sessions project now rule [] = []
  item_rows sessions project now rule (i ∷ is) =
      let rest = item_rows sessions project now rule is in
      let user = user_of_item sessions i in
      if i.project_id == project
        && text_eq i.kind (codes "event")
        && text_eq i.name rule.event
        && is_recent now rule i.ts
        && not (is_empty user)
      then user ∷ rest
      else rest

  unfoldable pub rows_of : ℕ → ℕ → CohortDb → CohortRule → List Text
  unfolding is_start session_rows item_rows
  rows_of project now db rule =
      if is_start rule.event
      then session_rows project now rule db.sessions
      else item_rows db.sessions project now rule db.items

  unfoldable pub rule_users : ℕ → ℕ → CohortDb → CohortRule → List Text
  unfolding rows_of distinct passes
  rule_users project now db rule =
      let rows = rows_of project now db rule in keep (passes rule rows) (distinct rows)

  -- Some query is refused.
  unfoldable pub is_refused : ℕ → List CohortRule → Bool
  unfolding window_of
  is_refused now [] = false
  is_refused now (r ∷ rs) = lib.refuses now (window_of r.window_days) || is_refused now rs
