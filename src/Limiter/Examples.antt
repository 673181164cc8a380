-- ===== src/Limiter/Examples.antt =====
-- The limiter at concrete inputs.
use sightpane.Prelude.{ℕ, ◌+◌, ◌-◌, ◌*◌, ◌≤◌, ◌≡◌, refl, true, false, some, [], ◌∷◌, arith}
use sightpane.Prelude.Int.{pos}
use sightpane.Limiter.{unit, IngestLimiter, limit_of, allow}
use sightpane.Limiter.Rate.{allow_each, allow_rate}
use sightpane.Limiter.Retry.{allow_after_retry, allow_never}

-- Five items a minute; project 1 has used its bucket up.
abbrev five : IngestLimiter
five = record {
  buckets = λ pid. some (record { tokens = 0; last_update = 0 });
  default_limit = pos 5;
}

abbrev three_calls : IngestLimiter × ℕ
three_calls =
    allow_each 1 (pos 0)
      (record { at = 0; items = pos 1 }
        ∷ record { at = 24_000_000_000; items = pos 2 }
        ∷ record { at = 24_000_000_000; items = pos 1 }
        ∷ [])
      five

-- Two items come back in 24 seconds.
two_of_four : three_calls.1 ≡ 2
unfolding allow_each allow
two_of_four = refl

allow_rate_example :
    (allow_each 1
        (pos 0)
        (record { at = 0; items = pos 1 } ∷ record { at = 24_000_000_000; items = pos 2 } ∷ [])
        five).1
      * unit
    ≤ limit_of (pos 0) (pos 5) * unit + (30_000_000_000 - 0) * limit_of (pos 0) (pos 5)
unfolding limit_of
allow_rate_example =
    allow_rate 1 (pos 0) (record { at = 0; items = pos 1 })
      (record { at = 24_000_000_000; items = pos 2 } ∷ []) five 30_000_000_000 (omega arith)
      (omega arith, omega arith)

two_refused : allow 0 1 (pos 0) (pos 2) five ≡ (
  record five { buckets = (allow 0 1 (pos 0) (pos 2) five).0.buckets },
  record { allowed = false; retry_after = 24 },
)
unfolding allow
two_refused = refl

-- One token is left.
abbrev one_left : IngestLimiter
one_left = record {
  buckets = λ pid. some (record { tokens = unit; last_update = 0 });
  default_limit = pos 5;
}

-- A thousandth of a token was lost in rounding.
abbrev rounded : IngestLimiter
rounded = record {
  buckets = λ pid. some (record { tokens = unit - 60_000_000; last_update = 0 });
  default_limit = pos 5;
}

allow_after_retry_example :
    (1 ≤ (allow 0 1 (pos 0) (pos 2) one_left).1.retry_after)
    × ((allow 0 1 (pos 0) (pos 2) one_left).1.retry_after ≤ 60)
    × ((allow 13_000_000_000 1 (pos 0) (pos 2) rounded).1.allowed ≡ true)
unfolding allow
allow_after_retry_example =
    allow_after_retry 0 13_000_000_000 1 (pos 0) (pos 2) one_left rounded
      (record { tokens = unit; last_update = 0 })
      (record { tokens = unit - 60_000_000; last_update = 0 }) (omega arith) (omega arith) refl refl
      refl refl refl (omega arith) (omega arith)

allow_never_example : (allow 7_000_000_000_000 1 (pos 0) (pos 6) five).1.allowed ≡ false
unfolding allow
allow_never_example =
    allow_never 7_000_000_000_000 1 (pos 0) (pos 6) five (omega arith) (omega arith)
