-- ===== src/Cron/Deadline/Again.antt =====
-- An evaluation leaves no deadline behind: a second one at the same instant has nothing to do.
use mathlib.Core.List.{map-id}
use sightpane.Prelude.{
  ℕ, ◌<◌, ◌≡◌, refl, ◌∙◌, Bool, true, false, ◌&&◌, not, Option, none, some, List, [], ◌∷◌, map,
  keep, All, All-map, All-mono, arith, Bool-cases, inl, inr, map-congr,
}
use sightpane.Prelude.Int.{ℤ, pos}
use sightpane.Cron.{CronMonitor, CronDb, missed, error}
use sightpane.Cron.Schedule.{
  CronLib, NextIsLater, compute_next_expected, compute_next_expected_later,
}
use sightpane.Cron.Checkin.{or_keep}
use sightpane.Cron.Deadline.{
  is_overdue, is_timed_out, mark, evaluate_cron_deadlines, is_in_progress, is_missed, is_past,
  past_opt,
}
use sightpane.Cron.Deadline.OnePass.{HasUniqueIds, evaluate_row, evaluate-one_pass, evaluate_unique}

-- A grace period that is not negative.
abbrev pub HasGrace : CronMonitor → Type 0
HasGrace m = (n : ℕ) × (m.grace_period_minutes ≡ pos n)

abbrev IsDone : ℕ → CronMonitor → Type 0
IsDone now m = (is_overdue now m ≡ false) × (is_timed_out now m ≡ false)

not_past : (now t n : ℕ) → now < t → is_past now t (pos n) ≡ false
unfolding is_past
not_past now t n h = ground arith

missed-IsDone : (lib : CronLib) (now : ℕ) (m : CronMonitor) → IsDone now (mark lib now missed m)
unfolding is_overdue is_timed_out mark is_in_progress is_missed
missed-IsDone lib now m = (refl, refl)

error_done_next :
    (now : ℕ) (g : ℤ) (next old : Option ℕ) (n : ℕ)
    → g ≡ pos n
    → ((k : ℕ) → next ≡ some k → now < k)
    → past_opt now old g ≡ false
    → past_opt now (or_keep next old) g ≡ false
unfolding past_opt or_keep
error_done_next now g none old n e h p = p
error_done_next now g (some k) old n e h p = rw e (not_past now k n (h k refl))

error-IsDone :
    (lib : CronLib) (now : ℕ) (m : CronMonitor)
    → NextIsLater lib
    → HasGrace m
    → is_overdue now m ≡ false
    → is_timed_out now m ≡ true
    → IsDone now (mark lib now error m)
unfolding is_overdue is_timed_out mark is_in_progress is_missed
error-IsDone lib now m later (n, e) o t =
    let p : past_opt now m.next_expected_at m.grace_period_minutes ≡ false = ground arith in
    (
      error_done_next now m.grace_period_minutes
          (compute_next_expected lib m.schedule m.timezone now) m.next_expected_at n e
          (λ k q. compute_next_expected_later lib later m.schedule m.timezone now k q) p,
      refl,
    )

evaluate_row-IsDone :
    (lib : CronLib) (now : ℕ) (m : CronMonitor)
    → NextIsLater lib
    → HasGrace m
    → IsDone now (evaluate_row lib now m)
unfolding evaluate_row
evaluate_row-IsDone lib now m later g = elim (Bool-cases (is_overdue now m)) [
  | inl e ↦ rw e (missed-IsDone lib now m)
  | inr e ↦ elim (Bool-cases (is_timed_out now m)) [
    | inl k ↦ rw (e, k) (error-IsDone lib now m later g e k)
    | inr k ↦ rw (e, k) (e, k)
  ]
]

evaluate_row_done :
    (lib : CronLib) (now : ℕ) (m : CronMonitor) → IsDone now m → evaluate_row lib now m ≡ m
unfolding evaluate_row
evaluate_row_done lib now m (o, t) = rw (o, t)

keep_done :
    (p : CronMonitor → Bool) (ms : List CronMonitor) → All (λ m. p m ≡ false) ms → keep p ms ≡ []
unfolding keep
keep_done p [] a = refl
keep_done p (m ∷ ms) (h, a) = rw (h, keep_done p ms a)

second_pass :
    (lib : CronLib) (now : ℕ) (db : CronDb)
    → HasUniqueIds db.monitors
    → All (IsDone now) db.monitors
    → ((evaluate_cron_deadlines lib now db).0.monitors ≡ db.monitors)
      × ((evaluate_cron_deadlines lib now db).1 ≡ [])
second_pass lib now db u a =
    let (rows, alerts) = evaluate-one_pass lib now db u in
    let same : map (evaluate_row lib now) db.monitors ≡ db.monitors =
      map-congr (evaluate_row lib now) (λ m. m) db.monitors
        (All-mono (IsDone now) _ db.monitors (λ m d. evaluate_row_done lib now m d) a)
      ∙ map-id db.monitors in
    let none_missed =
      keep_done (is_overdue now) db.monitors (All-mono (IsDone now) _ db.monitors (λ m d. d.0) a) in
    let none_timed_out =
      keep_done (λ m. not (is_overdue now m) && is_timed_out now m) db.monitors
        (All-mono (IsDone now) _ db.monitors (λ m d. ground (arith, d.1)) a) in
    (rows ∙ same, alerts ∙ rw (none_missed, none_timed_out))

-- With distinct ids, grace periods that are not negative and schedules whose next time is later, an
-- evaluation right after another one changes no monitor and alerts nobody.
pub evaluate_again :
    (lib : CronLib) (now : ℕ) (db : CronDb)
    → NextIsLater lib
    → HasUniqueIds db.monitors
    → All HasGrace db.monitors
    → ((evaluate_cron_deadlines lib now (evaluate_cron_deadlines lib now db).0).0.monitors
        ≡ (evaluate_cron_deadlines lib now db).0.monitors)
      × ((evaluate_cron_deadlines lib now (evaluate_cron_deadlines lib now db).0).1 ≡ [])
evaluate_again lib now db later u g =
    let (rows, alerts) = evaluate-one_pass lib now db u in
    second_pass lib now (evaluate_cron_deadlines lib now db).0
      (rw rows (evaluate_unique lib now db.monitors u))
      (rw rows (
        All-map (IsDone now) (evaluate_row lib now) db.monitors
          (All-mono HasGrace _ db.monitors (λ m h. evaluate_row-IsDone lib now m later h) g)))
