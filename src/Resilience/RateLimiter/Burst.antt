-- ===== src/Resilience/RateLimiter/Burst.antt =====
-- Requests at one instant.
use net.Base.{
  ℕ, zero, suc, ◌+◌, ◌-◌, ◌*◌, ◌^◌, ◌<◌, ◌≤◌, ◌≡◌, refl, ap, ◌∙◌, Text, List, [], ◌∷◌, arith, min,
  leb, true, false,
}
use native.Mathlib.Nat.{mul-le-mul_right}
use net.Resilience.Doubles.{Double, unit, of_u32, add, sub, round, of_i64, mul, div}
use net.Resilience.Doubles.Rounding.{round-zero}
use net.Resilience.Doubles.Exact.{round-exact}
use net.Resilience.RateLimiter.{
  RateLimiter, RateLimitConfig, allow, reject, second, capacity, tokens_to_add, new_limiter, refill,
  check_allow, weight, check_all,
}
use net.Resilience.RateLimiter.Refill.{unit_positive}

zero_times : (n x : ℕ) → n ≡ 0 → n * x ≡ 0
zero_times n x h = ap (λ (m : ℕ). m * x) h ∙ omega arith

round_of_zero : (p q : ℕ) → 0 < q → p ≡ 0 → round p q ≡ 0
round_of_zero p q pos h = ap (λ m. round m q) h ∙ round-zero q pos

-- No time, no tokens.
tokens_to_add-zero : (r : ℕ) → tokens_to_add 0 r ≡ 0
unfolding tokens_to_add of_i64 of_u32 mul div
tokens_to_add-zero r =
    let none = round_of_zero (0 * unit) 1 (omega arith) (zero_times 0 unit refl) in
    let seconds =
      round_of_zero (round (0 * unit) 1 * unit) (second * unit) (omega (arith, unit_positive))
        (zero_times (round (0 * unit) 1) unit none) in
    round_of_zero (round (round (0 * unit) 1 * unit) (second * unit) * (r * unit)) unit
      unit_positive
      (zero_times (round (round (0 * unit) 1 * unit) (second * unit)) (r * unit) seconds)

-- A bucket with `k` whole tokens, filled at the given time.
record Holds (l : RateLimiter) (k now : ℕ) : Type 0 where
  filled_at : l.last_refill_time ≡ now
  held : l.tokens ≡ k * unit
  fits : k ≤ l.config.burst_size
  word : l.config.burst_size < 2 ^ 32

add-zero : (k : ℕ) (t x : Double) → k < 2 ^ 32 → t ≡ k * unit → x ≡ 0 → add t x ≡ k * unit
unfolding add
add-zero k t x word h e =
    let sum : t + x ≡ k * unit = omega (arith, h, e) in
    ap (λ p. round p 1) sum ∙ round-exact k (omega arith)

sub-unit : (k : ℕ) (t : Double) → k < 2 ^ 32 → t ≡ suc k * unit → sub t unit ≡ k * unit
unfolding sub
sub-unit k t word h =
    let rest : t - unit ≡ k * unit = omega (arith, h) in
    ap (λ p. round p 1) rest ∙ round-exact k (omega arith)

min_of-le : (a b c : ℕ) → a ≡ c → c ≤ b → min a b ≡ c
min_of-le a b c h k = omega arith

-- A refill without time.
refill-Holds : (k now : ℕ) (l : RateLimiter) → Holds l k now → Holds (refill now l) k now
unfolding refill add of_u32
refill-Holds k now l h = record {
  filled_at = refl;
  held =
      let accrued = tokens_to_add (now - l.last_refill_time) l.config.requests_per_second in
      let no_time : now - l.last_refill_time ≡ 0 = omega (arith, h.filled_at) in
      min_of-le (add l.tokens accrued) (capacity l.config) (k * unit)
        (add-zero k l.tokens accrued (omega arith) h.held (
          ap (λ n. tokens_to_add n l.config.requests_per_second) no_time
          ∙ tokens_to_add-zero l.config.requests_per_second))
        (mul-le-mul_right unit h.fits);
  fits = h.fits;
  word = h.word;
}

lacking : (u t : ℕ) → 0 < u → t ≡ 0 * u → leb u t ≡ false
lacking u t pos h = ground arith

holding : (u k t : ℕ) → t ≡ suc k * u → leb u t ≡ true
holding u k t h = ground arith

check_allow-empty :
    (now : ℕ) (l : RateLimiter)
    → Holds l 0 now
    → ((check_allow [] now l).1 ≡ reject) × Holds (check_allow [] now l).0 0 now
unfolding check_allow
check_allow-empty now l h =
    let filled = refill-Holds 0 now l h in
    let short = lacking unit (refill now l).tokens unit_positive filled.held in
    rw short (refl, filled)

check_allow-holding :
    (k now : ℕ) (l : RateLimiter)
    → Holds l (suc k) now
    → ((check_allow [] now l).1 ≡ allow) × Holds (check_allow [] now l).0 k now
unfolding check_allow
check_allow-holding k now l h =
    let filled = refill-Holds (suc k) now l h in
    let enough = holding unit k (refill now l).tokens filled.held in
    rw enough (
      refl,
      record {
        filled_at = filled.filled_at;
        held =
            sub-unit k (refill now l).tokens (omega (arith, filled.fits, filled.word)) filled.held;
        fits = omega (arith, filled.fits);
        word = filled.word;
      },
    )

-- `n` checks at one instant.
abbrev pub at_once : ℕ → ℕ → List (Text × ℕ)
at_once zero now = []
at_once (suc n) now = ([], now) ∷ at_once n now

check_all-at_once :
    (n k now : ℕ) (l : RateLimiter) → Holds l k now → (check_all l (at_once n now)).1 ≡ min n k
unfolding check_all
check_all-at_once zero k now l h = omega arith
check_all-at_once (suc n) zero now l h =
    let (no_token, after) = check_allow-empty now l h in
    omega (arith, ap weight no_token, check_all-at_once n 0 now (check_allow [] now l).0 after)
check_all-at_once (suc n) (suc k) now l h =
    let (taken, after) = check_allow-holding k now l h in
    omega (arith, ap weight taken, check_all-at_once n k now (check_allow [] now l).0 after)

-- Of `n` requests at the instant in which the limiter was made, it lets through as many as the burst
-- allows and rejects the others, if the burst is a 32-bit number.
pub check_all_burst :
    (c : RateLimitConfig) (n now : ℕ)
    → c.burst_size < 2 ^ 32
    → (check_all (new_limiter c now) (at_once n now)).1 ≡ min n c.burst_size
unfolding new_limiter of_u32
check_all_burst c n now word =
    check_all-at_once n c.burst_size now (new_limiter c now)
      (record { filled_at = refl; held = refl; fits = omega arith; word = word })
