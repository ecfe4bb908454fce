-- ===== src/Resilience/RateLimiter/Spacing.antt =====
-- Which requests the limiter lets through for certain.
use net.Base.{
  ℕ, zero, suc, ◌+◌, ◌-◌, ◌*◌, ◌/◌, ◌%◌, ◌==◌, ◌&&◌, ◌^◌, ◌<◌, ◌≤◌, ◌≡◌, refl, sym, ap, subst,
  subst₂, ==_iff, ℕ_discrete, dec_lt, ◌∙◌, Bool, Bool-cases, inl, inr, Text, List, [], ◌∷◌, length,
  arith, min, leb, true, false,
}
use native.Mathlib.Nat.{mul-le-mul_right, mul-div_right, mod-eq-sub-mul-div}
use net.Resilience.Doubles.{Double, unit, of_u32, add}
use net.Resilience.RateLimiter.{
  RateLimiter, RateLimitConfig, allow, second, capacity, tokens_to_add, refill, check_allow, weight,
  check_all,
}
use net.Resilience.RateLimiter.Budget.{IsAt, check_allow-IsAt}
use net.Resilience.Doubles.Exact.{round-at-least}
use net.Resilience.RateLimiter.Refill.{unit_large, tokens_to_add-bounds}

-- Whether a token accrues.
abbrev ok : ℕ → ℕ → Bool
ok n r = leb unit (tokens_to_add n r)

-- A test of the divisors of 10^9 up to a number.
all_divisors : (ℕ → Bool) → ℕ → Bool
all_divisors test zero = true
all_divisors test (suc k) = elim (second % suc k == 0) [
  | true ↦ test (suc k) && all_divisors test k
  | false ↦ all_divisors test k
]

le_of_leb : (a b : ℕ) → leb a b ≡ true → a ≤ b
le_of_leb a b h = ground arith

and_both : (a b : Bool) → (a && b) ≡ true → (a ≡ true) × (b ≡ true)
and_both a b h = (ground arith, ground arith)

all_divisors-down :
    (test : ℕ → Bool) (m : ℕ) → all_divisors test (suc m) ≡ true → all_divisors test m ≡ true
unfolding all_divisors
all_divisors-down test m h = elim (Bool-cases (second % suc m == 0)) [
  | inl divides ↦
      (and_both (test (suc m)) (all_divisors test m) (rw (divides, all_divisors) at h)).1
  | inr apart ↦ rw (apart, all_divisors) at h
]

all_divisors-top :
    (test : ℕ → Bool) (m : ℕ)
    → all_divisors test (suc m) ≡ true
    → second % suc m ≡ 0
    → test (suc m) ≡ true
unfolding all_divisors
all_divisors-top test m h e =
    let divides : (second % suc m == 0) ≡ true = (==_iff (second % suc m) 0).1 e in
    (and_both (test (suc m)) (all_divisors test m) (rw (divides, all_divisors) at h)).0

all_divisors-test :
    (test : ℕ → Bool) (m k : ℕ)
    → all_divisors test m ≡ true
    → 0 < k
    → k ≤ m
    → second % k ≡ 0
    → test k ≡ true
all_divisors-test test zero k h pos le divides = absurd (omega arith)
all_divisors-test test (suc m) k h pos le divides = elim (ℕ_discrete k (suc m)) [
  | yes here ↦
      subst (λ x. second % x ≡ 0 → test x ≡ true) (sym here) (all_divisors-top test m h) divides
  | no there ↦ all_divisors-test test m k (all_divisors-down test m h) pos (omega arith) divides
]

abbrev both_ok : ℕ → Bool
both_ok k = ok k (second / k) && ok (second / k) k

-- Where the exact product is one token: of two divisors with that product one is at most 31623.
all_pairs : all_divisors both_ok 31623 ≡ true
unfolding all_divisors tokens_to_add unit
all_pairs = refl

large_pair : (n r : ℕ) → 31623 < n → 31623 < r → second < n * r
large_pair n r h k = omega (arith, mul-le-mul_right r h)

-- A divisor that is small, and its cofactor.
small_divisor : (n r : ℕ) → 0 < n → n ≤ 31623 → n * r ≡ second → (ok n r ≡ true) × (ok r n ≡ true)
small_divisor n r pos small h =
    let quotient : second / n ≡ r = ap (λ (x : ℕ). x / n) (sym h) ∙ mul-div_right r pos in
    let divides : second % n ≡ 0 =
      omega (arith, ap (λ (x : ℕ). n * x) quotient, h, mod-eq-sub-mul-div second n) in
    subst (λ x. (ok n x ≡ true) × (ok x n ≡ true)) quotient
      (and_both (ok n (second / n)) (ok (second / n) n)
        (all_divisors-test both_ok 31623 n all_pairs pos small divides))

factor_positive : (n r : ℕ) → n * r ≡ second → (0 < n) × (0 < r)
factor_positive zero r h = absurd (omega arith)
factor_positive (suc n) zero h = absurd (omega arith)
factor_positive (suc n) (suc r) h = (omega arith, omega arith)

exact_pair : (n r : ℕ) → n * r ≡ second → ok n r ≡ true
exact_pair n r h =
    let (n_pos, r_pos) = factor_positive n r h in
    elim (dec_lt 31623 n) [
      | no small ↦ (small_divisor n r n_pos (omega arith) h).0
      | yes large ↦ elim (dec_lt 31623 r) [
        | no small ↦ (small_divisor r n r_pos (omega arith) (omega (arith, h))).1
        | yes both ↦ absurd (omega (arith, large_pair n r large both))
      ]
    ]

more_than_one :
    (x y u : ℕ)
    → 2 ^ 300 ≤ u
    → (second + 1) * u ≤ y
    → (2 ^ 51 - 1) * y ≤ 2 ^ 51 * (x * second) + 2 ^ 130
    → u ≤ x
more_than_one x y u large more below = omega arith

-- In the time for one token at least one token accrues, whatever the rounding.
pub tokens_to_add-unit : (n r : ℕ) → r < 2 ^ 32 → second ≤ n * r → unit ≤ tokens_to_add n r
tokens_to_add-unit n r word waited = elim (ℕ_discrete (n * r) second) [
  | yes exactly ↦ le_of_leb unit (tokens_to_add n r) (exact_pair n r exactly)
  | no more ↦
      more_than_one (tokens_to_add n r) (n * r * unit) unit unit_large
        (mul-le-mul_right unit (omega arith)) (tokens_to_add-bounds n r word).1
]

of_u32-unit : (n : ℕ) → 0 < n → unit ≤ of_u32 n
unfolding of_u32
of_u32-unit zero pos = absurd (omega arith)
of_u32-unit (suc n) pos = omega arith

min-le : (u a b : ℕ) → u ≤ a → u ≤ b → u ≤ min a b
min-le u a b h k = omega arith

leb_of_le : (a b : ℕ) → a ≤ b → leb a b ≡ true
leb_of_le a b h = ground arith

add-unit : (x y : Double) → unit ≤ y → unit ≤ add x y
unfolding add
add-unit x y h = round-at-least (x + y) (omega arith)

refill-unit :
    (now : ℕ) (l : RateLimiter)
    → 0 < l.config.burst_size
    → l.config.requests_per_second < 2 ^ 32
    → second ≤ (now - l.last_refill_time) * l.config.requests_per_second
    → unit ≤ (refill now l).tokens
unfolding refill
refill-unit now l room word waited =
    let accrued = tokens_to_add (now - l.last_refill_time) l.config.requests_per_second in
    min-le unit (add l.tokens accrued) (capacity l.config)
      (add-unit l.tokens accrued
        (tokens_to_add-unit (now - l.last_refill_time) l.config.requests_per_second word waited))
      (of_u32-unit l.config.burst_size room)

-- A bucket that has had the time for one token, and may hold one, lets the next request through.
check_allow_after_wait :
    (key : Text) (now : ℕ) (l : RateLimiter)
    → 0 < l.config.burst_size
    → l.config.requests_per_second < 2 ^ 32
    → second ≤ (now - l.last_refill_time) * l.config.requests_per_second
    → (check_allow key now l).1 ≡ allow
unfolding check_allow
check_allow_after_wait key now l room word waited =
    rw (leb_of_le unit (refill now l).tokens (refill-unit now l room word waited)) refl

-- Requests that come no faster than the rate.
abbrev pub IsSpaced : ℕ → ℕ → List (Text × ℕ) → Type 0
IsSpaced rate since [] = Unit {0}
IsSpaced rate since ((key, now) ∷ cs) = (second ≤ (now - since) * rate) × IsSpaced rate now cs

-- Requests that come no faster than the rate are all let through, however the doubles are rounded, if
-- the bucket may hold a token and the rate is a 32-bit number.
pub check_all_spaced :
    (l : RateLimiter) (cs : List (Text × ℕ)) (since : ℕ) (c : RateLimitConfig)
    → 0 < c.burst_size
    → c.requests_per_second < 2 ^ 32
    → IsAt l since c
    → IsSpaced c.requests_per_second since cs
    → (check_all l cs).1 ≡ length cs
unfolding check_all
check_all_spaced l [] since c room word e h = refl
check_all_spaced l ((key, now) ∷ cs) since c room word e h = omega (
  arith,
  ap weight (
      subst₂
        (λ (s : ℕ) (d : RateLimitConfig).
          0 < d.burst_size
          → d.requests_per_second < 2 ^ 32
          → second ≤ (now - s) * d.requests_per_second
          → (check_allow key now l).1 ≡ allow)
        e.0 e.1 (check_allow_after_wait key now l) room word h.0),
  check_all_spaced (check_allow key now l).0 cs now c room word (check_allow-IsAt key now l e) h.1,
)
