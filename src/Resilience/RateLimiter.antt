-- ===== src/Resilience/RateLimiter.antt =====
-- src/resilience/rate_limiter.cpp. A reading of `steady_clock` is a number of nanoseconds, and an
-- argument of each call that reads the clock; the clock does not go back. Tokens are a `double`.
pub mod Refill
pub mod Budget
pub mod Spacing
pub mod Burst
use net.Base.{ℕ, suc, ◌+◌, ◌-◌, min, Bool, leb, if◌then◌else◌, Text, List, [], ◌∷◌}
use net.Resilience.Doubles.{Double, unit, of_i64, of_u32, add, sub, mul, div}

pub data RateLimitDecision : Type 0 where
  allow reject : RateLimitDecision

pub record RateLimitConfig : Type 0 where
  pub requests_per_second : ℕ
  pub burst_size : ℕ

pub record RateLimiter : Type 0 where
  pub config : RateLimitConfig
  pub tokens : Double
  pub last_refill_time : ℕ

-- A second, in nanoseconds.
abbrev pub second : ℕ
second = 1_000_000_000

abbrev pub capacity : RateLimitConfig → Double
capacity c = of_u32 c.burst_size

unfoldable pub new_limiter : RateLimitConfig → ℕ → RateLimiter
unfolding of_u32
new_limiter config now = record {
  config = config;
  tokens = capacity config;
  last_refill_time = now;
}

-- What accrues in some nanoseconds: `duration_cast` to seconds divides by 10^9.
unfoldable pub tokens_to_add : ℕ → ℕ → Double
unfolding of_i64 of_u32 mul div
tokens_to_add elapsed requests_per_second =
    mul (div (of_i64 elapsed) (of_u32 second)) (of_u32 requests_per_second)

-- The refill: `tokens_ = min(tokens_ + tokens_to_add, burst_size)`.
unfoldable pub refill : ℕ → RateLimiter → RateLimiter
unfolding tokens_to_add add of_u32
refill now l = record l {
  tokens =
      min (add l.tokens (tokens_to_add (now - l.last_refill_time) l.config.requests_per_second))
        (capacity l.config);
  last_refill_time = now;
}

-- The route key is not looked at.
unfoldable pub check_allow : Text → ℕ → RateLimiter → RateLimiter × RateLimitDecision
unfolding refill unit sub
check_allow route_key now l =
    let filled = refill now l in
    if leb unit filled.tokens
    then (record filled { tokens = sub filled.tokens unit }, allow)
    else (filled, reject)

unfoldable pub reset : ℕ → RateLimiter → RateLimiter
unfolding of_u32
reset now l = record l { tokens = capacity l.config; last_refill_time = now }

-- How much a decision adds to the number of requests allowed.
abbrev pub weight : RateLimitDecision → ℕ
weight allow = 1
weight reject = 0

-- A sequence of checks, each with its route and the reading of the clock: the limiter afterwards, and
-- how many requests were allowed.
unfoldable pub check_all : RateLimiter → List (Text × ℕ) → RateLimiter × ℕ
check_all l [] = (l, 0)
check_all l ((key, now) ∷ cs) =
    let (l', decision) = check_allow key now l in
    let (last, allowed) = check_all l' cs in (last, weight decision + allowed)
