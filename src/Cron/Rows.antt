-- ===== src/Cron/Rows.antt =====
-- Monitors with positive periods, distinct ids and ids from the sequence.
use sightpane.Prelude.{
  ℕ, ◌+◌, ◌<◌, ◌≡◌, refl, ◌==◌, Bool, List, [], ◌∷◌, ◌++◌, All, HasUnique-update_where,
  HasUnique-keep, HasUnique-snoc, All-snoc, keep, update_where, All-update_where, All-keep,
  All-mono, arith, Bool-cases, inl, inr,
}
use sightpane.Prelude.Int.{ℤ, pos, negsuc}
use sightpane.Cron.{CronMonitor, CronDb, with_defaults, at_least_one}
use sightpane.Cron.Deadline.OnePass.{HasUniqueIds}

-- A positive integer.
abbrev pub IsPositive : ℤ → Type 0
IsPositive z = (n : ℕ) × (z ≡ pos n) × (0 < n)

pub record HasPeriods (m : CronMonitor) : Type 0 where
  pub grace : IsPositive m.grace_period_minutes
  pub runtime : IsPositive m.max_runtime_minutes

at_least_one-IsPositive : (n : ℕ) (z : ℤ) → 0 < n → IsPositive (at_least_one (pos n) z)
unfolding at_least_one
at_least_one-IsPositive n (negsuc k) h = (n, refl, h)
at_least_one-IsPositive n (pos k) h = elim (Bool-cases (k == 0)) [
  | inl e ↦ rw e (n, refl, h)
  | inr e ↦ rw e (k, refl, ground arith)
]

pub with_defaults-HasPeriods : (m : CronMonitor) → HasPeriods (with_defaults m)
unfolding with_defaults
with_defaults-HasPeriods m = record {
  grace = at_least_one-IsPositive 15 m.grace_period_minutes (omega arith);
  runtime = at_least_one-IsPositive 60 m.max_runtime_minutes (omega arith);
}

-- The ids are distinct and come from the sequence.
abbrev pub IsWellFormedAt : List CronMonitor → ℕ → Type 0
IsWellFormedAt ms next = All HasPeriods ms × All (λ m. m.id < next) ms × HasUniqueIds ms

abbrev pub IsWellFormed : CronDb → Type 0
IsWellFormed db = IsWellFormedAt db.monitors db.next_id

pub update_where-IsWellFormedAt :
    (p : CronMonitor → Bool) (f : CronMonitor → CronMonitor) (ms : List CronMonitor) (next : ℕ)
    → ((m : CronMonitor) → (f m).id ≡ m.id)
    → ((m : CronMonitor) → HasPeriods m → HasPeriods (f m))
    → IsWellFormedAt ms next
    → IsWellFormedAt (update_where p f ms) next
update_where-IsWellFormedAt p f ms next ids periods (h, b, u) = (
  All-update_where HasPeriods HasPeriods p f ms (λ m g _. periods m g) (λ m g _. g) h,
  All-update_where (λ m. m.id < next) (λ m. m.id < next) p f ms (λ m g _. rw (ids m) g) (λ m g _. g)
      b,
  HasUnique-update_where (λ m. m.id) p f ms ids u,
)

pub keep-IsWellFormedAt :
    (p : CronMonitor → Bool) (ms : List CronMonitor) (next : ℕ)
    → IsWellFormedAt ms next
    → IsWellFormedAt (keep p ms) next
keep-IsWellFormedAt p ms next (h, b, u) = (
  All-keep HasPeriods p ms h,
  All-keep (λ m. m.id < next) p ms b,
  HasUnique-keep (λ m. m.id) p ms u,
)

pub snoc-IsWellFormedAt :
    (ms : List CronMonitor) (next : ℕ) (m : CronMonitor)
    → m.id ≡ next
    → HasPeriods m
    → IsWellFormedAt ms next
    → IsWellFormedAt (ms ++ m ∷ []) (next + 1)
snoc-IsWellFormedAt ms next m e g (h, b, u) = (
  All-snoc HasPeriods ms m h g,
  All-snoc (λ r. r.id < next + 1) ms m (All-mono (λ r. r.id < next) _ ms (λ r k. omega arith) b)
      (omega arith),
  HasUnique-snoc (λ r. r.id) ms m u (All-mono (λ r. r.id < next) _ ms (λ r k. ground arith) b),
)
