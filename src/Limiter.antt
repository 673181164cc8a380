-- ===== src/Limiter.antt =====
-- The token bucket of the ingest limiter (internal/server/limiter.go). The float64 numbers of the
-- code are taken as exact: a token is 60 · 10⁹ units, so `limit` tokens a minute are `limit` units a
-- nanosecond. The code rounds, so its bucket may hold a little less or more than this one. The clock
-- of time.Now is monotonic.
pub mod Rate
pub mod Retry
mod Examples
use sightpane.Prelude.{
  ℕ, ◌+◌, ◌-◌, ◌*◌, ◌/◌, ◌==◌, Bool, true, false, Option, none, some, ltb, leb, if◌then◌else◌,
}
use sightpane.Prelude.Int.{ℤ, pos, negsuc}

abbrev pub unit : ℕ
unit = 60_000_000_000

abbrev pub second : ℕ
second = 1_000_000_000

pub record ProjectBucket : Type 0 where
  pub tokens : ℕ
  pub last_update : ℕ

pub record IngestLimiter : Type 0 where
  pub buckets : ℕ → Option ProjectBucket
  pub default_limit : ℤ

pub record Answer : Type 0 where
  pub allowed : Bool
  pub retry_after : ℕ

-- A number that is not positive gives way to the default.
unfoldable pub positive_or : ℕ → ℤ → ℕ
positive_or default (negsuc k) = default
positive_or default (pos k) = if k == 0 then default else k

-- 0 where neither is positive: no limit.
unfoldable pub limit_of : ℤ → ℤ → ℕ
unfolding positive_or
limit_of quota default = positive_or (positive_or 0 default) quota

unfoldable pub needed_of : ℤ → ℕ
unfolding positive_or
needed_of n = positive_or 1 n

-- math.Min(float64(limit), b.tokens + elapsed*ratePerSec)
unfoldable pub refilled : ℕ → ProjectBucket → ℕ → ℕ
refilled limit b now =
    let tokens = b.tokens + (now - b.last_update) * limit in
    if leb (limit * unit) tokens then limit * unit else tokens

-- The bucket at the time of the call; a new one starts full.
unfoldable pub current : ℕ → ℕ → Option ProjectBucket → ProjectBucket
unfolding refilled
current limit now none = record { tokens = limit * unit; last_update = now }
current limit now (some b) = record { tokens = refilled limit b now; last_update = now }

-- int(math.Ceil(missing / ratePerSec)), between 1 and 60.
unfoldable pub retry_of : ℕ → ℕ → ℕ
retry_of limit missing =
    let seconds = (missing + (limit * second - 1)) / (limit * second) in
    if ltb seconds 1 then 1 else if ltb 60 seconds then 60 else seconds

unfoldable pub take : ℕ → ℕ → ProjectBucket → ProjectBucket × Answer
unfolding retry_of
take limit needed b =
    if leb (needed * unit) b.tokens
    then (
      record b { tokens = b.tokens - needed * unit },
      record { allowed = true; retry_after = 0 },
    )
    else (b, record { allowed = false; retry_after = retry_of limit (needed * unit - b.tokens) })

unfoldable pub put : ℕ → ProjectBucket → (ℕ → Option ProjectBucket) → ℕ → Option ProjectBucket
put pid b buckets j = if j == pid then some b else buckets j

unfoldable pub allow_limit : ℕ → ℕ → ℕ → ℕ → IngestLimiter → IngestLimiter × Answer
unfolding take current put
allow_limit limit now pid needed l =
    let (b, answer) = take limit needed (current limit now (l.buckets pid)) in
    (record l { buckets = put pid b l.buckets }, answer)

unfoldable pub allow : ℕ → ℕ → ℤ → ℤ → IngestLimiter → IngestLimiter × Answer
unfolding limit_of needed_of allow_limit
allow now pid quota n l =
    if limit_of quota l.default_limit == 0
    then (l, record { allowed = true; retry_after = 0 })
    else allow_limit (limit_of quota l.default_limit) now pid (needed_of n) l
