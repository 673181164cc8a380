-- ===== src/Limiter/Rate.antt =====
-- How much a project gets in over an interval.
use sightpane.Prelude.{
  ℕ, ◌+◌, ◌-◌, ◌*◌, ◌≤◌, ◌<◌, ◌≡◌, ◌==◌, refl, ◌∙◌, true, false, Option, none, some, List, [], ◌∷◌,
  leb, arith, Bool-cases, inl, inr, if◌then◌else◌,
}
use sightpane.Prelude.Int.{ℤ}
use sightpane.Limiter.{
  unit, ProjectBucket, IngestLimiter, Answer, limit_of, needed_of, refilled, current, take, put,
  allow_limit, allow,
}

-- A call of Allow for one project: its instant and its number of items.
pub record Call : Type 0 where
  pub at : ℕ
  pub items : ℤ

-- The calls one after another, with what was let in.
unfoldable pub allow_each : ℕ → ℤ → List Call → IngestLimiter → IngestLimiter × ℕ
allow_each pid quota [] l = (l, 0)
allow_each pid quota (c ∷ cs) l =
    let (l1, answer) = allow c.at pid quota c.items l in
    let (l2, rest) = allow_each pid quota cs l1 in
    (l2, (if answer.allowed then needed_of c.items else 0) + rest)

-- The calls are in the order of time, from `start` to `stop`.
abbrev pub IsTimed : ℕ → ℕ → List Call → Type 0
IsTimed start stop [] = start ≤ stop
IsTimed start stop (c ∷ cs) = (start ≤ c.at) × IsTimed c.at stop cs

-- What is let in is taken from the bucket.
take_bound :
    (limit needed : ℕ) (b : ProjectBucket)
    → ((if (take limit needed b).1.allowed then needed else 0) * unit
          + (take limit needed b).0.tokens
        ≤ b.tokens)
      × ((take limit needed b).0.last_update ≡ b.last_update)
unfolding take
take_bound limit needed b = elim (Bool-cases (leb (needed * unit) b.tokens)) [
  | inl e ↦ rw e (ground arith, refl)
  | inr e ↦ rw e (omega arith, refl)
]

refilled_bound :
    (limit : ℕ) (b : ProjectBucket) (now : ℕ)
    → (refilled limit b now ≤ b.tokens + (now - b.last_update) * limit)
      × (refilled limit b now ≤ limit * unit)
unfolding refilled
refilled_bound limit b now =
    elim (Bool-cases (leb (limit * unit) (b.tokens + (now - b.last_update) * limit))) [
      | inl e ↦ rw e (ground arith, omega arith)
      | inr e ↦ rw e (omega arith, ground arith)
    ]

pub current_full :
    (limit now : ℕ) (o : Option ProjectBucket)
    → ((current limit now o).tokens ≤ limit * unit) × ((current limit now o).last_update ≡ now)
unfolding current
current_full limit now none = (omega arith, refl)
current_full limit now (some b) = ((refilled_bound limit b now).1, refl)

module _ (pid : ℕ) (quota : ℤ) (now : ℕ) (items : ℤ) (l : IngestLimiter)
    (limited : 0 < limit_of quota l.default_limit) where
  abbrev pub limit : ℕ
  limit = limit_of quota l.default_limit

  abbrev pub taken : ProjectBucket × Answer
  taken = take limit (needed_of items) (current limit now (l.buckets pid))

  pub allow_run :
      allow now pid quota items l ≡ (record l { buckets = put pid taken.0 l.buckets }, taken.1)
  unfolding allow allow_limit
  allow_run =
      let some_limit : (limit_of quota l.default_limit == 0) ≡ false = ground arith in
      rw some_limit refl

  pub allow_bucket : (allow now pid quota items l).0.buckets pid ≡ some taken.0
  unfolding put
  allow_bucket = let same : (pid == pid) ≡ true = ground arith in rw (allow_run, same) refl

  default-allow : (allow now pid quota items l).0.default_limit ≡ l.default_limit
  default-allow = rw allow_run refl

  -- One call.
  call_bound :
      (b : ProjectBucket)
      → l.buckets pid ≡ some b
      → ((if (allow now pid quota items l).1.allowed then needed_of items else 0) * unit
            + taken.0.tokens
          ≤ b.tokens + (now - b.last_update) * limit)
        × (taken.0.last_update ≡ now)
  unfolding current
  call_bound b found =
      let (spent, at) = take_bound limit (needed_of items) (current limit now (l.buckets pid)) in
      let (refill, _) = refilled_bound limit b now in
      let same : current limit now (l.buckets pid)
          ≡ record { tokens = refilled limit b now; last_update = now } =
        rw found refl in
      rw allow_run (rw same (omega (arith, refill, rw same at spent)), at ∙ rw same refl)

IsTimed-le : (start stop : ℕ) (cs : List Call) → IsTimed start stop cs → start ≤ stop
IsTimed-le start stop [] h = h
IsTimed-le start stop (c ∷ cs) (h, hs) = omega (arith, IsTimed-le c.at stop cs hs)

split_time : (a b c L : ℕ) → a ≤ b → b ≤ c → (b - a) * L + (c - b) * L ≡ (c - a) * L
split_time a b c L h k = grind arith

-- The items that are let in from a bucket, and what is left in it, come from the tokens that were in
-- it and the refill since.
allow_each_bound :
    (pid : ℕ) (quota : ℤ) (cs : List Call) (l : IngestLimiter) (b : ProjectBucket) (stop : ℕ)
    → 0 < limit_of quota l.default_limit
    → l.buckets pid ≡ some b
    → IsTimed b.last_update stop cs
    → (allow_each pid quota cs l).1 * unit
      ≤ b.tokens + (stop - b.last_update) * limit_of quota l.default_limit
unfolding allow_each
allow_each_bound pid quota [] l b stop h found timed = omega arith
allow_each_bound pid quota (c ∷ cs) l b stop h found (le, timed) =
    let l1 = (allow c.at pid quota c.items l).0 in
    let b1 = (taken pid quota c.at c.items l h).0 in
    let (spent, at) = call_bound pid quota c.at c.items l h b found in
    let same : l1.default_limit ≡ l.default_limit = default-allow pid quota c.at c.items l h in
    let all =
      allow_each_bound pid quota cs l1 b1 stop (rw same h) (allow_bucket pid quota c.at c.items l h)
        (rw at timed) in
    let rest : (allow_each pid quota cs l1).1 * unit
        ≤ b1.tokens + (stop - c.at) * limit_of quota l.default_limit =
      rw (at, same) at all in
    let time =
      split_time b.last_update c.at stop (limit_of quota l.default_limit) le
        (IsTimed-le c.at stop cs timed) in
    omega (arith, spent, rest, time)

-- The first call begins with at most a full bucket.
first_call :
    (pid : ℕ) (quota : ℤ) (now : ℕ) (items : ℤ) (l : IngestLimiter)
    (h : 0 < limit_of quota l.default_limit)
    → ((if (allow now pid quota items l).1.allowed then needed_of items else 0) * unit
          + (taken pid quota now items l h).0.tokens
        ≤ limit_of quota l.default_limit * unit)
      × ((taken pid quota now items l h).0.last_update ≡ now)
first_call pid quota now items l h =
    let (spent, at) =
      take_bound (limit_of quota l.default_limit) (needed_of items)
        (current (limit_of quota l.default_limit) now (l.buckets pid)) in
    let (full, start) = current_full (limit_of quota l.default_limit) now (l.buckets pid) in
    (rw (allow_run pid quota now items l h) (omega (arith, spent, full)), at ∙ start)

-- Whatever a project's bucket holds, calls of Allow in the order of time under one quota with a limit let in at
-- most `limit` items at once and `limit` more for every minute from the first call to the last, where
-- a minute is 60 · 10⁹ nanoseconds.
pub allow_rate :
    (pid : ℕ) (quota : ℤ) (c : Call) (cs : List Call) (l : IngestLimiter) (stop : ℕ)
    → 0 < limit_of quota l.default_limit
    → IsTimed c.at stop cs
    → (allow_each pid quota (c ∷ cs) l).1 * unit
      ≤ limit_of quota l.default_limit * unit + (stop - c.at) * limit_of quota l.default_limit
unfolding allow_each
allow_rate pid quota c cs l stop h timed =
    let l1 = (allow c.at pid quota c.items l).0 in
    let b1 = (taken pid quota c.at c.items l h).0 in
    let (spent, at) = first_call pid quota c.at c.items l h in
    let same : l1.default_limit ≡ l.default_limit = default-allow pid quota c.at c.items l h in
    let all =
      allow_each_bound pid quota cs l1 b1 stop (rw same h) (allow_bucket pid quota c.at c.items l h)
        (rw at timed) in
    let rest : (allow_each pid quota cs l1).1 * unit
        ≤ b1.tokens + (stop - c.at) * limit_of quota l.default_limit =
      rw (at, same) at all in
    omega (arith, spent, rest)
