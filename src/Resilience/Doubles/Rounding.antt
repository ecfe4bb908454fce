-- ===== src/Resilience/Doubles/Rounding.antt =====
-- How far a result of `Doubles` is from the exact one.
use net.Base.{
  ℕ, zero, suc, ◌+◌, ◌*◌, ◌/◌, ◌%◌, ◌^◌, ◌<◌, ◌≤◌, ◌≡◌, refl, ap, subst, ◌∙◌, Bool, Bool-cases, ◌⊎◌,
  inl, inr, true, false, ◌||◌, ◌&&◌, ltb, ◌==◌, arith,
}
use native.Mathlib.Nat.{lt_of_mul-lt-mul_right}
use net.Resilience.Doubles.{Double, nearest, last_place, round}

is_up : (q r : ℕ) (odd : Bool) → (ltb q (2 * r) || 2 * r == q && odd) ≡ true → q ≤ 2 * r
is_up q r odd h = ground arith

is_down : (q r : ℕ) (odd : Bool) → (ltb q (2 * r) || 2 * r == q && odd) ≡ false → 2 * r ≤ q
is_down q r odd h = ground arith

-- The nearest whole number is within one half.
abbrev pub IsNear : ℕ → ℕ → ℕ → Type 0
IsNear n p q = (2 * (n * q) ≤ 2 * p + q) × (2 * p ≤ 2 * (n * q) + q)

pub nearest-IsNear : (p q : ℕ) → 0 < q → IsNear (nearest p q) p q
unfolding nearest
nearest-IsNear p q pos =
    elim (Bool-cases (ltb q (2 * (p % q)) || 2 * (p % q) == q && p / q % 2 == 1)) [
      | inl up ↦ rw up (let h = is_up q (p % q) (p / q % 2 == 1) up in (omega arith, omega arith))
      | inr down ↦
          rw down (let h = is_down q (p % q) (p / q % 2 == 1) down in (omega arith, omega arith))
    ]

-- A last place is 1, or leaves 52 bits above it.
pub record IsPlace (k p q : ℕ) : Type 0 where
  pub positive : 0 < k
  pub leaves : (k ≡ 1) ⊎ (2 ^ 52 * (k * q) ≤ p)

pub last_place-IsPlace : (n k p q : ℕ) → IsPlace k p q → IsPlace (last_place n k p q) p q
unfolding last_place
last_place-IsPlace zero k p q h = h
last_place-IsPlace (suc n) k p q h = elim (Bool-cases (ltb p (2 ^ 53 * (k * q)))) [
  | inl small ↦ rw (small, last_place) h
  | inr large ↦
      rw (large, last_place)
        (last_place-IsPlace n (2 * k) p q
          (record { positive = omega (arith, h.positive); leaves = inr (ground arith) }))
]

-- Half a unit in the last place: at most 2^-53 of the value, or half of the smallest double.
pos_mul : (a b : ℕ) → 0 < a → 0 < b → 0 < a * b
pos_mul a b h k = grind arith

scaled :
    (k n p q : ℕ)
    → IsPlace k p q
    → IsNear n p (k * q)
    → (2 ^ 53 * (k * n * q) ≤ 2 ^ 53 * p + p + 2 ^ 52 * q)
      × (2 ^ 53 * p ≤ 2 ^ 53 * (k * n * q) + p + 2 ^ 52 * q)
scaled k n p q place (above, below) = elim place.leaves [
  | inl least ↦
      let one : k * q ≡ q = ap (λ (x : ℕ). x * q) least ∙ omega arith in
      (omega (arith, above, one), omega (arith, below, one))
  | inr many ↦ (omega (arith, above, many), omega (arith, below, many))
]

pub round-bounds :
    (p q : ℕ)
    → 0 < q
    → (2 ^ 53 * (round p q * q) ≤ 2 ^ 53 * p + p + 2 ^ 52 * q)
      × (2 ^ 53 * p ≤ 2 ^ 53 * (round p q * q) + p + 2 ^ 52 * q)
unfolding round
round-bounds p q pos =
    let k = last_place 2100 1 p q in
    let place =
      last_place-IsPlace 2100 1 p q (record { positive = omega arith; leaves = inl refl }) in
    scaled k (nearest p (k * q)) p q place
      (nearest-IsNear p (k * q) (pos_mul k q place.positive pos))

-- The same where the exact result is a number of units.
abbrev pub IsClose : Double → ℕ → Type 0
IsClose x p = (2 ^ 53 * x ≤ 2 ^ 53 * p + p + 2 ^ 52) × (2 ^ 53 * p ≤ 2 ^ 53 * x + p + 2 ^ 52)

over_one :
    (x p : ℕ)
    → (2 ^ 53 * (x * 1) ≤ 2 ^ 53 * p + p + 2 ^ 52 * 1)
      × (2 ^ 53 * p ≤ 2 ^ 53 * (x * 1) + p + 2 ^ 52 * 1)
    → IsClose x p
over_one x p (above, below) = (omega (arith, above), omega (arith, below))

pub round-IsClose : (p : ℕ) → IsClose (round p 1) p
round-IsClose p = over_one (round p 1) p (round-bounds p 1 (omega arith))

pub round-zero : (q : ℕ) → 0 < q → round 0 q ≡ 0
round-zero q pos =
    let small : round 0 q < 1 = lt_of_mul-lt-mul_right q (omega (arith, round-bounds 0 q pos)) in
    omega arith

doubled : (x k p q : ℕ) → p < 2 ^ 53 * (2 * x * (k * q)) → p < 2 ^ 53 * (x * (2 * k * q))
doubled x k p q h = omega (arith, h)

-- The fuel of `round` is enough: below 2^2153 times q at most 53 bits are left.
last_place-enough :
    (n k p q : ℕ) → p < 2 ^ 53 * (2 ^ n * (k * q)) → p < 2 ^ 53 * (last_place n k p q * q)
unfolding last_place
last_place-enough zero k p q h = omega (arith, h)
last_place-enough (suc n) k p q h =
    let step : 2 ^ suc n ≡ 2 * 2 ^ n = omega arith in
    elim (Bool-cases (ltb p (2 ^ 53 * (k * q)))) [
      | inl small ↦ rw (small, last_place) (ground arith)
      | inr large ↦
          rw (large, last_place)
            (last_place-enough n (2 * k) p q
              (doubled (2 ^ n) k p q (subst (λ x. p < 2 ^ 53 * (x * (k * q))) step h)))
    ]
