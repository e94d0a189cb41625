-- ===== src/RateLimit.antt =====
-- internal/server/ratelimit.go: the token buckets.
pub mod Laws
mod Tests
-- Times are nanoseconds of the monotonic clock, which does not go back. Tokens are counted in
-- thousand-millionths, so that a nanosecond adds `rate` of them where `rate` tokens are added in a
-- second; the rounding of float64 is left out. A rate is a whole number of tokens a second, where the
-- source takes a float64 and the configuration a fraction.
use lightweight_saas_backend.Prelude.{
  Bool, List, Option, [], false, if◌then◌else◌, leb, ltb, none, select, some, true, ℕ, ◌*◌, ◌+◌,
  ◌-◌, ◌/◌, ◌==◌, ◌∷◌,
}
use lightweight_saas_backend.Text.{Text, text_eq}

abbrev pub one_token : ℕ
one_token = 1000000000

abbrev pub default_rate : ℕ
default_rate = 10

abbrev pub default_burst : ℕ
default_burst = 20

-- 10 minutes
abbrev pub stale_after : ℕ
stale_after = 600000000000

pub record Bucket : Type 0 where
  pub tokens : ℕ
  pub last : ℕ
  pub last_seen : ℕ

pub record RateLimiter : Type 0 where
  pub buckets : List (Text × Bucket)
  pub rate : ℕ
  pub burst : ℕ

-- `newRateLimiter`: what is not positive is replaced by the default.
unfoldable pub new_rate_limiter : ℕ → ℕ → RateLimiter
new_rate_limiter rate burst = record {
  buckets = [];
  rate = if rate == 0 then default_rate else rate;
  burst = (if burst == 0 then default_burst else burst) * one_token;
}

unfoldable pub lookup : Text → List (Text × Bucket) → Option Bucket
lookup key [] = none
lookup key ((k, b) ∷ bs) = let rest = lookup key bs in if text_eq k key then some b else rest

unfoldable pub store : Text → Bucket → List (Text × Bucket) → List (Text × Bucket)
store key b [] = (key, b) ∷ []
store key b ((k, c) ∷ bs) =
    let rest = store key b bs in if text_eq k key then (k, b) ∷ bs else (k, c) ∷ rest

abbrev pub capped : ℕ → ℕ → ℕ
capped burst n = if ltb burst n then burst else n

-- The bucket as the request finds it: a new one is full, another one is refilled.
unfoldable pub refilled : ℕ → ℕ → ℕ → Option Bucket → Bucket
refilled rate burst now none = record { tokens = burst; last = now; last_seen = now }
refilled rate burst now (some b) = record {
  tokens = capped burst (b.tokens + (now - b.last) * rate);
  last = now;
  last_seen = now;
}

-- A token is taken where there is one; the remaining whole tokens.
unfoldable pub taken : Bucket → Bucket × Bool × ℕ
taken b =
    if ltb b.tokens one_token
    then (b, false, 0)
    else (record b { tokens = b.tokens - one_token }, true, (b.tokens - one_token) / one_token)

abbrev pub request : ℕ → ℕ → ℕ → Option Bucket → Bucket × Bool × ℕ
request rate burst now o = taken (refilled rate burst now o)

-- `allow`, with the whole tokens that remain.
unfoldable pub allow : Text → ℕ → RateLimiter → RateLimiter × Bool × ℕ
unfolding refilled taken lookup store
allow key now l =
    let (b, admitted, remaining) = request l.rate l.burst now (lookup key l.buckets) in
    (record l { buckets = store key b l.buckets }, admitted, remaining)

refunded : ℕ → Option Bucket → Text → List (Text × Bucket) → List (Text × Bucket)
refunded burst none key bs = bs
refunded burst (some b) key bs =
    store key (record b { tokens = capped burst (b.tokens + one_token) }) bs

unfoldable pub refund : Text → RateLimiter → RateLimiter
unfolding refunded
refund key l = record l { buckets = refunded l.burst (lookup key l.buckets) key l.buckets }

-- One round of `sweepLoop`.
unfoldable pub sweep : ℕ → RateLimiter → RateLimiter
sweep now l = record l { buckets = select (λ e. leb now (e.1.last_seen + stale_after)) l.buckets }
