-- ===== src/Limiter/Retry.antt =====
-- What Retry-After promises.
use native.Mathlib.Nat.{mul-le-mul_right, lt-div-mul-add, div-lt_iff_lt-mul}
use sightpane.Prelude.{
  ℕ, ◌+◌, ◌-◌, ◌*◌, ◌/◌, ◌≤◌, ◌<◌, ◌≡◌, refl, sym, ◌∙◌, ap, true, false, Option, none, some, leb,
  ltb, arith, Bool-cases, inl, inr,
}
use sightpane.Prelude.Int.{ℤ}
use sightpane.Limiter.{
  unit, second, ProjectBucket, IngestLimiter, limit_of, needed_of, refilled, current, retry_of,
  take, allow,
}
use sightpane.Limiter.Rate.{limit, allow_run, allow_bucket, current_full}

-- Waiting as long as told makes up for what is missing.
retry_enough :
    (limit missing : ℕ)
    → 0 < limit
    → missing ≤ limit * unit
    → (missing ≤ retry_of limit missing * (limit * second))
      × (1 ≤ retry_of limit missing)
      × (retry_of limit missing ≤ 60)
unfolding retry_of
retry_enough limit missing h le =
    let D = limit * second in
    let q = (missing + (D - 1)) / D in
    let pos_D : 0 < D = omega arith in
    let above : missing + (D - 1) < q * D + D = lt-div-mul-add pos_D in
    let below : q < 61 = (div-lt_iff_lt-mul pos_D).1 (omega arith) in
    elim (Bool-cases (ltb q 1)) [
      | inl e ↦
          let zero_q : q ≡ 0 = ground arith in
          let none_missing : missing + (D - 1) < 0 * D + D = rw zero_q at above in
          rw e (omega (arith, none_missing), omega arith, omega arith)
      | inr e ↦
          let no : ltb 60 q ≡ false = ground arith in
          rw (e, no) (omega (arith, above), ground arith, omega (arith, below))
    ]

-- A bucket that was not touched since.
refilled_later :
    (limit : ℕ) (b : ProjectBucket) (needed later wait : ℕ)
    → needed ≤ limit
    → needed * unit ≤ b.tokens + wait * (limit * second)
    → b.last_update + wait * second ≤ later
    → needed * unit ≤ refilled limit b later
unfolding refilled
refilled_later limit b needed later wait le enough at =
    elim (Bool-cases (leb (limit * unit) (b.tokens + (later - b.last_update) * limit))) [
      | inl e ↦ rw e (omega arith)
      | inr e ↦
          let elapsed : wait * second ≤ later - b.last_update = omega arith in
          let refill : wait * second * limit ≤ (later - b.last_update) * limit =
            mul-le-mul_right limit elapsed in
          let same : wait * (limit * second) ≡ wait * second * limit = grind arith in
          rw e (omega (arith, enough, refill, same))
    ]

-- A bucket that refuses is left as it is, and says how long to wait.
refused :
    (limit needed : ℕ) (b : ProjectBucket)
    → (take limit needed b).1.allowed ≡ false
    → ((take limit needed b).0 ≡ b)
      × ((take limit needed b).1.retry_after ≡ retry_of limit (needed * unit - b.tokens))
unfolding take
refused limit needed b h = elim (Bool-cases (leb (needed * unit) b.tokens)) [
  | inl e ↦ absurd (ground arith)
  | inr e ↦ rw e (refl, refl)
]

granted :
    (limit needed : ℕ) (b : ProjectBucket)
    → needed * unit ≤ b.tokens
    → (take limit needed b).1.allowed ≡ true
unfolding take
granted limit needed b h = let e : leb (needed * unit) b.tokens ≡ true = ground arith in rw e refl

allow-granted :
    (later pid : ℕ) (quota n : ℤ) (l : IngestLimiter) (b : ProjectBucket)
    → 0 < limit_of quota l.default_limit
    → l.buckets pid ≡ some b
    → needed_of n * unit ≤ refilled (limit_of quota l.default_limit) b later
    → (allow later pid quota n l).1.allowed ≡ true
unfolding current
allow-granted later pid quota n l b h found enough =
    let here : needed_of n * unit
        ≤ (current (limit_of quota l.default_limit) later (l.buckets pid)).tokens =
      rw found enough in
    rw (allow_run pid quota later n l h) (
      granted (limit_of quota l.default_limit) (needed_of n)
        (current (limit_of quota l.default_limit) later (l.buckets pid)) here)

-- What an option of a bucket holds, 0 of none.
abbrev tokens_of : Option ProjectBucket → ℕ
tokens_of none = 0
tokens_of (some b) = b.tokens

abbrev update_of : Option ProjectBucket → ℕ
update_of none = 0
update_of (some b) = b.last_update

-- A refused call of no more items than the limit is told to wait from 1 to 60 seconds, and the same
-- call is let in from one second after that time on, if the project makes no other call in between,
-- even where the bucket of the refusal was kept with fewer tokens than the exact ones, as rounding
-- does, by up to what a second refills.
pub allow_after_retry :
    (now later pid : ℕ) (quota n : ℤ) (l rounded : IngestLimiter) (b kept : ProjectBucket)
    → 0 < limit_of quota l.default_limit
    → needed_of n ≤ limit_of quota l.default_limit
    → (allow now pid quota n l).1.allowed ≡ false
    → (allow now pid quota n l).0.buckets pid ≡ some b
    → rounded.buckets pid ≡ some kept
    → rounded.default_limit ≡ l.default_limit
    → kept.last_update ≡ b.last_update
    → b.tokens ≤ kept.tokens + limit_of quota l.default_limit * second
    → now + ((allow now pid quota n l).1.retry_after + 1) * second ≤ later
    → (1 ≤ (allow now pid quota n l).1.retry_after)
      × ((allow now pid quota n l).1.retry_after ≤ 60)
      × ((allow later pid quota n rounded).1.allowed ≡ true)
allow_after_retry now later pid quota n l rounded b kept h le refusal held found same since close
      at =
    let L = limit_of quota l.default_limit in
    let c = current L now (l.buckets pid) in
    let run = allow_run pid quota now n l h in
    let (left, wait) = refused L (needed_of n) c (rw run at refusal) in
    let (full, start) = current_full L now (l.buckets pid) in
    let (enough, least, most) = retry_enough L (needed_of n * unit - c.tokens) h (omega arith) in
    let told : (allow now pid quota n l).1.retry_after
        ≡ retry_of L (needed_of n * unit - c.tokens) =
      rw run wait in
    let R = retry_of L (needed_of n * unit - c.tokens) in
    let is_c : some b ≡ some c = sym held ∙ allow_bucket pid quota now n l h ∙ ap some left in
    let tokens : b.tokens ≡ c.tokens = ap tokens_of is_c in
    let update : b.last_update ≡ c.last_update = ap update_of is_c in
    let more : (R + 1) * (L * second) ≡ R * (L * second) + L * second = grind arith in
    let refill : needed_of n * unit ≤ refilled L kept later =
      refilled_later L kept (needed_of n) later (R + 1) le
        (omega (arith, enough, close, tokens, more))
        (omega (arith, at, told, start, update, since)) in
    (
      omega (arith, told, least),
      omega (arith, told, most),
      allow-granted later pid quota n rounded kept (rw same h) found (rw same refill),
    )

-- A call of more items than the limit is never let in, however long the project waits.
pub allow_never :
    (now pid : ℕ) (quota n : ℤ) (l : IngestLimiter)
    → 0 < limit_of quota l.default_limit
    → limit_of quota l.default_limit < needed_of n
    → (allow now pid quota n l).1.allowed ≡ false
unfolding take
allow_never now pid quota n l h more =
    let L = limit_of quota l.default_limit in
    let (full, _) = current_full L now (l.buckets pid) in
    let short : leb (needed_of n * unit) (current L now (l.buckets pid)).tokens ≡ false =
      ground (arith, full) in
    rw (allow_run pid quota now n l h) (rw short refl)
