-- ===== src/Cron/Deadline/OnePass.antt =====
-- The two passes come to one decision for each monitor.
use mathlib.Core.List.{map-map, map-id}
use mathlib.Core.Path.{fun_ext}
use sightpane.Prelude.{
  sym, ℕ, ◌==◌, ◌≡◌, refl, ap, ◌∙◌, Bool, false, ◌&&◌, not, List, [], ◌∷◌, ◌++◌, map, keep, All,
  HasUnique, arith, update_where-map, All-keep, All-map, All-mono, All-both, map-congr,
  if◌then◌else◌, Bool-cases, inl, inr,
}
use sightpane.Prelude.Text.{Text, codes}
use sightpane.Cron.{CronStatus, CronMonitor, CronDb, missed, error, has_monitor_id}
use sightpane.Cron.Schedule.{CronLib}
use sightpane.Cron.Deadline.{
  is_overdue, is_timed_out, mark, write_row, write_back, pass, evaluate_cron_deadlines,
  is_in_progress,
}

abbrev pub HasUniqueIds : List CronMonitor → Type 0
HasUniqueIds = HasUnique (λ m. m.id)

-- All the writes of one pass, as one row sees them.
write_all : List CronMonitor → CronMonitor → CronMonitor
write_all [] r = r
write_all (m ∷ ms) r = write_all ms (if r.id == m.id then write_row m r else r)

write_back-map : (ms rows : List CronMonitor) → write_back ms rows ≡ map (write_all ms) rows
unfolding write_back write_all has_monitor_id
write_back-map [] rows = sym (map-id rows)
write_back-map (m ∷ ms) rows = write_back-map ms _ ∙ rw (update_where-map, map-map)

write_all_other :
    (ms : List CronMonitor) (r : CronMonitor)
    → All (λ m. (m.id == r.id) ≡ false) ms
    → write_all ms r ≡ r
unfolding write_all
write_all_other [] r a = refl
write_all_other (m ∷ ms) r (h, a) =
    let other : (r.id == m.id) ≡ false = ground arith in rw other (write_all_other ms r a)

module _ (lib : CronLib) (now : ℕ) (test : CronMonitor → Bool) (status : CronStatus) where
  -- What a pass does to one row.
  pub pass_row : CronMonitor → CronMonitor
  pass_row m = if test m then mark lib now status m else m

  marked_ids :
      (r : CronMonitor) (xs : List CronMonitor)
      → All (λ m. (m.id == r.id) ≡ false) xs
      → All (λ m. (m.id == r.id) ≡ false) (map (mark lib now status) (keep test xs))
  unfolding mark
  marked_ids r xs a =
      All-map (λ m. (m.id == r.id) ≡ false) (mark lib now status) (keep test xs)
        (All-keep (λ m. (m.id == r.id) ≡ false) test xs a)

  write_mark : (m : CronMonitor) → write_row (mark lib now status m) m ≡ mark lib now status m
  unfolding write_row mark
  write_mark m = refl

  abbrev marked : List CronMonitor → List CronMonitor
  marked xs = map (mark lib now status) (keep test xs)

  id-mark : (m : CronMonitor) → (mark lib now status m).id ≡ m.id
  unfolding mark
  id-mark m = refl

  write_own :
      (m : CronMonitor)
      → (if m.id == (mark lib now status m).id then write_row (mark lib now status m) m else m)
        ≡ mark lib now status m
  write_own m = ground (arith, id-mark m, write_mark m)

  pass_first :
      (m : CronMonitor) (xs : List CronMonitor)
      → All (λ y. (y.id == m.id) ≡ false) xs
      → write_all (marked (m ∷ xs)) m ≡ pass_row m
  unfolding keep write_all pass_row
  pass_first m xs u = elim (Bool-cases (test m)) [
    | inl e ↦ rw e (
        ap (write_all (marked xs)) (write_own m)
        ∙ write_all_other (marked xs) (mark lib now status m) (rw (id-mark m) (marked_ids m xs u)))
    | inr e ↦ rw e (write_all_other (marked xs) m (marked_ids m xs u))
  ]

  pass_later :
      (m : CronMonitor) (xs : List CronMonitor) (r : CronMonitor)
      → (r.id == m.id) ≡ false
      → write_all (marked xs) r ≡ pass_row r
      → write_all (marked (m ∷ xs)) r ≡ pass_row r
  unfolding keep write_all
  pass_later m xs r other h = elim (Bool-cases (test m)) [
    | inl e ↦ rw (e, id-mark m, other) h
    | inr e ↦ rw e h
  ]

  write_all-pass :
      (xs : List CronMonitor) → HasUniqueIds xs → All (λ r. write_all (marked xs) r ≡ pass_row r) xs
  write_all-pass [] u = tt
  write_all-pass (m ∷ xs) (u, us) = (
    pass_first m xs u,
    All-mono (λ r. ((r.id == m.id) ≡ false) × (write_all (marked xs) r ≡ pass_row r)) _ xs
        (λ r h. pass_later m xs r h.0 h.1)
        (All-both (λ r. (r.id == m.id) ≡ false) _ xs u (write_all-pass xs us)),
  )

  -- A pass changes each row by itself.
  pass-map :
      (message : Text) (db : CronDb)
      → HasUniqueIds db.monitors
      → (pass lib now test status message db).0.monitors ≡ map pass_row db.monitors
  unfolding pass
  pass-map message db u =
      write_back-map (marked db.monitors) db.monitors
      ∙ map-congr _ pass_row db.monitors (write_all-pass db.monitors u)

  id-pass_row : (m : CronMonitor) → (pass_row m).id ≡ m.id
  unfolding pass_row
  id-pass_row m = ground (arith, id-mark m)

  pass_ids :
      (r : CronMonitor) (xs : List CronMonitor)
      → All (λ m. (m.id == r.id) ≡ false) xs
      → All (λ m. (m.id == (pass_row r).id) ≡ false) (map pass_row xs)
  pass_ids r xs a =
      All-map (λ m. (m.id == (pass_row r).id) ≡ false) pass_row xs
        (All-mono (λ m. (m.id == r.id) ≡ false) _ xs (λ m h. rw (id-pass_row m, id-pass_row r) h) a)

  pass_unique : (xs : List CronMonitor) → HasUniqueIds xs → HasUniqueIds (map pass_row xs)
  pass_unique [] u = tt
  pass_unique (m ∷ xs) (u, us) = (pass_ids m xs u, pass_unique xs us)

-- The one decision: a missed deadline comes before a timeout.
unfoldable pub evaluate_row : CronLib → ℕ → CronMonitor → CronMonitor
evaluate_row lib now m =
    if is_overdue now m
    then mark lib now missed m
    else if is_timed_out now m
    then mark lib now error m
    else m

evaluate_row-passes :
    (lib : CronLib) (now : ℕ) (m : CronMonitor)
    → pass_row lib now (is_timed_out now) error (pass_row lib now (is_overdue now) missed m)
      ≡ evaluate_row lib now m
unfolding pass_row evaluate_row
evaluate_row-passes lib now m = elim (Bool-cases (is_overdue now m)) [
  | inl e ↦ rw e (unfold is_timed_out mark is_in_progress in refl)
  | inr e ↦ rw e
]

missed_not_timed_out :
    (lib : CronLib) (now : ℕ) (m : CronMonitor) → is_timed_out now (mark lib now missed m) ≡ false
unfolding is_timed_out mark is_in_progress
missed_not_timed_out lib now m = refl

alerted_second :
    (lib : CronLib) (now : ℕ) (xs : List CronMonitor)
    → keep (is_timed_out now) (map (pass_row lib now (is_overdue now) missed) xs)
      ≡ keep (λ m. not (is_overdue now m) && is_timed_out now m) xs
unfolding keep pass_row
alerted_second lib now [] = refl
alerted_second lib now (m ∷ xs) = elim (Bool-cases (is_overdue now m)) [
  | inl e ↦ rw (e, missed_not_timed_out lib now m) (alerted_second lib now xs)
  | inr e ↦ rw (e, alerted_second lib now xs)
]

-- With distinct ids, an evaluation marks a monitor missed if its deadline has passed, else as an error
-- if its run has timed out, and leaves every other monitor as it is. It alerts those it marks missed
-- and then those it marks as errors, each of them once.
pub evaluate-one_pass :
    (lib : CronLib) (now : ℕ) (db : CronDb)
    → HasUniqueIds db.monitors
    → ((evaluate_cron_deadlines lib now db).0.monitors ≡ map (evaluate_row lib now) db.monitors)
      × ((evaluate_cron_deadlines lib now db).1
          ≡ map (mark lib now missed) (keep (is_overdue now) db.monitors)
            ++ map
                (mark lib now error)
                (keep (λ m. not (is_overdue now m) && is_timed_out now m) db.monitors))
unfolding evaluate_cron_deadlines
evaluate-one_pass lib now db u =
    let first = pass-map lib now (is_overdue now) missed (codes "Missed check-in deadline") db u in
    let db1 = (pass lib now (is_overdue now) missed (codes "Missed check-in deadline") db).0 in
    let u1 : HasUniqueIds db1.monitors =
      rw first (pass_unique lib now (is_overdue now) missed db.monitors u) in
    (
      pass-map lib now (is_timed_out now) error (codes "Job execution timed out") db1 u1
          ∙ rw (first, map-map, fun_ext (evaluate_row-passes lib now)),
      ap
          (λ ms.
            map (mark lib now missed) (keep (is_overdue now) db.monitors)
            ++ map (mark lib now error) ms)
          (ap (keep (is_timed_out now)) first ∙ alerted_second lib now db.monitors),
    )

pub id-evaluate_row :
    (lib : CronLib) (now : ℕ) (m : CronMonitor) → (evaluate_row lib now m).id ≡ m.id
unfolding evaluate_row mark
id-evaluate_row lib now m = ground arith

evaluate_ids :
    (lib : CronLib) (now : ℕ) (r : CronMonitor) (xs : List CronMonitor)
    → All (λ m. (m.id == r.id) ≡ false) xs
    → All (λ m. (m.id == (evaluate_row lib now r).id) ≡ false) (map (evaluate_row lib now) xs)
evaluate_ids lib now r xs a =
    All-map (λ m. (m.id == (evaluate_row lib now r).id) ≡ false) (evaluate_row lib now) xs
      (All-mono (λ m. (m.id == r.id) ≡ false) _ xs
        (λ m h. rw (id-evaluate_row lib now m, id-evaluate_row lib now r) h) a)

pub evaluate_unique :
    (lib : CronLib) (now : ℕ) (xs : List CronMonitor)
    → HasUniqueIds xs
    → HasUniqueIds (map (evaluate_row lib now) xs)
evaluate_unique lib now [] u = tt
evaluate_unique lib now (m ∷ xs) (u, us) =
    (evaluate_ids lib now m xs u, evaluate_unique lib now xs us)
