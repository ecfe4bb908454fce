-- ===== src/Resilience/RateLimiter/Budget.antt =====
-- How many requests the limiter lets through at most.
use net.Base.{
  ℕ, zero, suc, ◌+◌, ◌-◌, ◌*◌, ◌^◌, ◌<◌, ◌≤◌, ◌≡◌, ◌⊎◌, inl, inr, refl, ap, subst₂, Bool-cases,
  Text, List, [], ◌∷◌, length, arith, min, leb, true,
}
use native.Mathlib.Nat.{le_of_mul-le-mul_left, mul-lt-mul_of_pos_right}
use net.Resilience.Doubles.{Double, unit, of_u32, add, sub, round}
use net.Resilience.Doubles.Rounding.{IsClose, round-IsClose}
use net.Resilience.RateLimiter.{
  RateLimiter, RateLimitConfig, second, capacity, tokens_to_add, new_limiter, refill, check_allow,
  weight, check_all,
}
use net.Resilience.RateLimiter.Refill.{unit_large, unit_positive, tokens_to_add-bounds}

-- The fields of the configuration are `uint32_t`.
pub record AreWords (c : RateLimitConfig) : Type 0 where
  pub rate_word : c.requests_per_second < 2 ^ 32
  pub burst_word : c.burst_size < 2 ^ 32

-- The tokens after a refill, and what the additions and the rounding come to.
record IsFilled (t x b filled : ℕ) : Type 0 where
  sum : ℕ
  close : IsClose sum (t + x)
  of_sum : filled ≤ sum
  of_burst : filled ≤ b

taken :
    (u t x b y filled left : ℕ)
    → 2 ^ 300 ≤ u
    → t ≤ b
    → 2 ^ 51 * (x * second) ≤ (2 ^ 51 + 1) * y + 2 ^ 130
    → IsFilled t x b filled
    → u ≤ filled
    → IsClose left (filled - u)
    → (1 * u + left) * (second * 2 ^ 50) ≤ t * (second * 2 ^ 50) + y * (2 ^ 50 + 1) + b * second
taken u t x b y filled left large valid accrues f enough close =
    omega (arith, f.close.0, f.of_sum, f.of_burst, close.0)

kept :
    (u t x b y filled : ℕ)
    → 2 ^ 300 ≤ u
    → (b ≡ 0) ⊎ (u ≤ b)
    → t ≤ b
    → 2 ^ 51 * (x * second) ≤ (2 ^ 51 + 1) * y + 2 ^ 130
    → IsFilled t x b filled
    → (0 * u + filled) * (second * 2 ^ 50) ≤ t * (second * 2 ^ 50) + y * (2 ^ 50 + 1) + b * second
kept u t x b y filled large holds valid accrues f = omega (arith, f.close.0, f.of_sum, f.of_burst)

left_valid :
    (u b filled left : ℕ)
    → 2 ^ 300 ≤ u
    → filled ≤ b
    → u ≤ filled
    → b < 2 ^ 32 * u
    → IsClose left (filled - u)
    → left ≤ b
left_valid u b filled left large of_burst enough word close = omega (arith, close.0)

min-le_left : (a b : ℕ) → min a b ≤ a
min-le_left a b = omega arith

min-le_right : (a b : ℕ) → min a b ≤ b
min-le_right a b = omega arith

le_of_leb : (a b : ℕ) → leb a b ≡ true → a ≤ b
le_of_leb a b h = ground arith

abbrev accrued : ℕ → RateLimiter → ℕ
accrued now l = (now - l.last_refill_time) * l.config.requests_per_second * unit

abbrev added : ℕ → RateLimiter → Double
added now l = tokens_to_add (now - l.last_refill_time) l.config.requests_per_second

refill-IsFilled :
    (now : ℕ) (l : RateLimiter)
    → IsFilled l.tokens (added now l) (capacity l.config) (refill now l).tokens
unfolding refill add
refill-IsFilled now l = record {
  sum = round (l.tokens + added now l) 1;
  close = round-IsClose (l.tokens + added now l);
  of_sum = min-le_left (round (l.tokens + added now l) 1) (capacity l.config);
  of_burst = min-le_right (round (l.tokens + added now l) 1) (capacity l.config);
}

sub-IsClose : (t : Double) → IsClose (sub t unit) (t - unit)
unfolding sub
sub-IsClose t = round-IsClose (t - unit)

holds_one : (n : ℕ) → (of_u32 n ≡ 0) ⊎ (unit ≤ of_u32 n)
unfolding of_u32
holds_one zero = inl (omega arith)
holds_one (suc n) = inr (omega arith)

word_capacity : (n : ℕ) → n < 2 ^ 32 → of_u32 n < 2 ^ 32 * unit
unfolding of_u32
word_capacity n h = mul-lt-mul_of_pos_right h unit_positive

-- The bucket holds no more than the burst.
abbrev pub IsValid : RateLimiter → Type 0
IsValid l = l.tokens ≤ capacity l.config

record Cost (now : ℕ) (l : RateLimiter) (left : Double) (w : ℕ) : Type 0 where
  covered :
      (w * unit + left) * (second * 2 ^ 50)
      ≤ l.tokens * (second * 2 ^ 50) + accrued now l * (2 ^ 50 + 1) + capacity l.config * second
  valid : left ≤ capacity l.config

-- One check: what it takes from the bucket is covered by what was in it and what accrued, but for
-- the rounding.
check_allow-Cost :
    (key : Text) (now : ℕ) (l : RateLimiter)
    → AreWords l.config
    → IsValid l
    → Cost now l (check_allow key now l).0.tokens (weight (check_allow key now l).1)
unfolding check_allow
check_allow-Cost key now l words valid =
    let filled = refill-IsFilled now l in
    let (above, below) =
      tokens_to_add-bounds (now - l.last_refill_time) l.config.requests_per_second
        words.rate_word in
    elim (Bool-cases (leb unit (refill now l).tokens)) [
      | inl enough ↦ rw enough (record {
        covered =
            taken unit l.tokens (added now l) (capacity l.config) (accrued now l)
              (refill now l).tokens (sub (refill now l).tokens unit) unit_large valid above filled
              (le_of_leb unit (refill now l).tokens enough) (sub-IsClose (refill now l).tokens);
        valid =
            left_valid unit (capacity l.config) (refill now l).tokens
              (sub (refill now l).tokens unit) unit_large filled.of_burst
              (le_of_leb unit (refill now l).tokens enough)
              (word_capacity l.config.burst_size words.burst_word)
              (sub-IsClose (refill now l).tokens);
      })
      | inr short ↦ rw short (record {
        covered =
            kept unit l.tokens (added now l) (capacity l.config) (accrued now l)
              (refill now l).tokens unit_large (holds_one l.config.burst_size) valid above filled;
        valid = filled.of_burst;
      })
    ]

-- The clock's readings do not fall.
abbrev pub IsMonotone : ℕ → List (Text × ℕ) → Type 0
IsMonotone since [] = Unit {0}
IsMonotone since ((key, now) ∷ cs) = (since ≤ now) × IsMonotone now cs

abbrev last_time : ℕ → List (Text × ℕ) → ℕ
last_time since [] = since
last_time since ((key, now) ∷ cs) = last_time now cs

last_time-le : (since : ℕ) (cs : List (Text × ℕ)) → IsMonotone since cs → since ≤ last_time since cs
last_time-le since [] h = omega arith
last_time-le since ((key, now) ∷ cs) h = omega (arith, h.0, last_time-le now cs h.1)

accrual_split :
    (a b c rate u : ℕ)
    → a ≤ b
    → b ≤ c
    → (b - a) * rate * u + (c - b) * rate * u ≡ (c - a) * rate * u
accrual_split a b c rate u h k =
    let e : (b - a) + (c - b) ≡ c - a = omega arith in omega (arith, ap (λ (t : ℕ). t * rate * u) e)

-- A limiter with the given configuration that was last filled at the given time.
abbrev pub IsAt : RateLimiter → ℕ → RateLimitConfig → Type 0
IsAt l since c = (l.last_refill_time ≡ since) × (l.config ≡ c)

pub check_allow-IsAt :
    (key : Text) (now : ℕ) (l : RateLimiter) {since : ℕ} {c : RateLimitConfig}
    → IsAt l since c
    → IsAt (check_allow key now l).0 now c
unfolding check_allow refill
check_allow-IsAt key now l h = elim (Bool-cases (leb unit (refill now l).tokens)) [
  | inl enough ↦ rw enough (refl, h.1)
  | inr short ↦ rw short (refl, h.1)
]

check_allow-covered :
    (key : Text) (now : ℕ) (l : RateLimiter) (since : ℕ) (c : RateLimitConfig)
    → IsAt l since c
    → AreWords c
    → l.tokens ≤ capacity c
    → ((weight (check_allow key now l).1 * unit + (check_allow key now l).0.tokens)
          * (second * 2 ^ 50)
        ≤ l.tokens * (second * 2 ^ 50)
          + (now - since) * c.requests_per_second * unit * (2 ^ 50 + 1)
          + capacity c * second)
      × ((check_allow key now l).0.tokens ≤ capacity c)
check_allow-covered key now l since c (e, f) words valid =
    subst₂
      (λ (s : ℕ) (d : RateLimitConfig).
        AreWords d
        → l.tokens ≤ capacity d
        → ((weight (check_allow key now l).1 * unit + (check_allow key now l).0.tokens)
              * (second * 2 ^ 50)
            ≤ l.tokens * (second * 2 ^ 50)
              + (now - s) * d.requests_per_second * unit * (2 ^ 50 + 1)
              + capacity d * second)
          × ((check_allow key now l).0.tokens ≤ capacity d))
      e f (λ w v. let cost = check_allow-Cost key now l w v in (cost.covered, cost.valid)) words
      valid

-- The sum of two costs.
costs :
    (w ws u t t1 t2 y ys y2 n b : ℕ)
    → (w * u + t1) * (second * 2 ^ 50) ≤ t * (second * 2 ^ 50) + y * (2 ^ 50 + 1) + b * second
    → (ws * u + t2) * (second * 2 ^ 50)
      ≤ t1 * (second * 2 ^ 50) + ys * (2 ^ 50 + 1) + n * (b * second)
    → y + ys ≡ y2
    → ((w + ws) * u + t2) * (second * 2 ^ 50)
      ≤ t * (second * 2 ^ 50) + y2 * (2 ^ 50 + 1) + suc n * (b * second)
costs w ws u t t1 t2 y ys y2 n b h k e = omega (arith, h, k, e)

check_all-budget :
    (l : RateLimiter) (cs : List (Text × ℕ)) (since : ℕ) (c : RateLimitConfig)
    → IsAt l since c
    → AreWords c
    → l.tokens ≤ capacity c
    → IsMonotone since cs
    → ((check_all l cs).1 * unit + (check_all l cs).0.tokens) * (second * 2 ^ 50)
      ≤ l.tokens * (second * 2 ^ 50)
        + (last_time since cs - since) * c.requests_per_second * unit * (2 ^ 50 + 1)
        + length cs * (capacity c * second)
unfolding check_all
check_all-budget l [] since c e words valid h = omega arith
check_all-budget l ((key, now) ∷ cs) since c e words valid h =
    let (l', decision) = check_allow key now l in
    let (covered, valid') = check_allow-covered key now l since c e words valid in
    let rate = c.requests_per_second in
    costs (weight decision) (check_all l' cs).1 unit l.tokens l'.tokens (check_all l' cs).0.tokens
      ((now - since) * rate * unit) ((last_time now cs - now) * rate * unit)
      ((last_time now cs - since) * rate * unit) (length cs) (capacity c) covered
      (check_all-budget l' cs now c (check_allow-IsAt key now l e) words valid' h.1)
      (accrual_split since now (last_time now cs) rate unit h.0 (last_time-le now cs h.1))

without_unit :
    (allowed rest burst rate time n u : ℕ)
    → 0 < u
    → (allowed * u + rest) * (second * 2 ^ 50)
      ≤ burst * u * (second * 2 ^ 50) + time * rate * u * (2 ^ 50 + 1) + n * (burst * u * second)
    → allowed * (second * 2 ^ 50) ≤ burst * second * (2 ^ 50 + n) + time * rate * (2 ^ 50 + 1)
without_unit allowed rest burst rate time n u pos h =
    le_of_mul-le-mul_left {k = u} (omega (arith, h)) pos

-- Over any sequence of checks, whatever their routes, the limiter lets through at most the burst and
-- what accrues in the time from its start to the last check, if the clock's readings do not fall; but
-- rounding may add 2^-50 of what accrues, and for each check 2^-50 of the burst.
pub check_all_bounded :
    (c : RateLimitConfig) (start : ℕ) (cs : List (Text × ℕ))
    → AreWords c
    → IsMonotone start cs
    → (check_all (new_limiter c start) cs).1 * (second * 2 ^ 50)
      ≤ c.burst_size * second * (2 ^ 50 + length cs)
        + (last_time start cs - start) * c.requests_per_second * (2 ^ 50 + 1)
unfolding new_limiter of_u32
check_all_bounded c start cs words h =
    without_unit (check_all (new_limiter c start) cs).1
      (check_all (new_limiter c start) cs).0.tokens c.burst_size c.requests_per_second
      (last_time start cs - start) (length cs) unit unit_positive
      (check_all-budget (new_limiter c start) cs start c (refl, refl) words (omega arith) h)
