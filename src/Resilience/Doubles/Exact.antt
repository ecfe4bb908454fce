-- ===== src/Resilience/Doubles/Exact.antt =====
-- Whole numbers below 2^53 are doubles, and what is one already is not changed by rounding.
use net.Base.{
  ℕ, zero, suc, ◌+◌, ◌*◌, ◌^◌, ◌<◌, ◌≤◌, ◌≡◌, refl, sym, ap, subst, ◌-◌, ◌∙◌, Bool-cases, inl, inr,
  true, false, ltb, leb, arith,
}
use native.Mathlib.Nat.{lt_of_mul-lt-mul_left, mul-le-mul_right}
use net.Resilience.Doubles.{unit, nearest, last_place, round}
use net.Resilience.Doubles.Rounding.{IsPlace, IsNear, last_place-IsPlace, nearest-IsNear}

-- Of two powers of 2 the larger is a multiple of the smaller.
power_positive : (e : ℕ) → 0 < 2 ^ e
power_positive zero = omega arith
power_positive (suc e) = omega (arith, power_positive e)

power_divides : (e f : ℕ) → 2 ^ e ≤ 2 ^ f → (c : ℕ) × (2 ^ f ≡ 2 ^ e * c)
power_divides zero f h = (2 ^ f, omega arith)
power_divides (suc e) zero h = absurd (omega (arith, power_positive e))
power_divides (suc e) (suc f) h =
    let (c, eq) = power_divides e f (omega arith) in
    let step : 2 ^ suc e ≡ 2 * 2 ^ e = omega arith in
    (c, omega (arith, eq, ap (λ (x : ℕ). x * c) step))

last_place-power : (n e p q : ℕ) → (d : ℕ) × (last_place n (2 ^ e) p q ≡ 2 ^ d)
unfolding last_place
last_place-power zero e p q = (e, refl)
last_place-power (suc n) e p q = elim (Bool-cases (ltb p (2 ^ 53 * (2 ^ e * q)))) [
  | inl small ↦ rw (small, last_place) (e, refl)
  | inr large ↦
      let (d, eq) = last_place-power n (suc e) p q in
      rw (large, last_place) (d, ap (λ k. last_place n k p q) (omega arith) ∙ eq)
]

near_multiple : (n x q : ℕ) → 0 < q → IsNear n (x * q) q → n ≡ x
near_multiple n x q pos (above, below) =
    let up : n < suc x = lt_of_mul-lt-mul_left q {m = n} {n = suc x} (omega arith) in
    let down : x < suc n = lt_of_mul-lt-mul_left q {m = x} {n = suc n} (omega arith) in omega arith

power_below : (d f : ℕ) → 2 ^ d < 2 * 2 ^ f → 2 ^ d ≤ 2 ^ f
power_below zero f h = omega (arith, power_positive f)
power_below (suc d) zero h = absurd (omega (arith, power_positive d))
power_below (suc d) (suc f) h = omega (arith, power_below d f (omega arith))

place_below : (k m u : ℕ) → 0 < u → m < 2 ^ 53 → IsPlace k (m * u) 1 → k < 2 * u
place_below k m u pos small place = elim place.leaves [
  | inl least ↦ omega arith
  | inr many ↦ let most : m * u ≤ (2 ^ 53 - 1) * u = mul-le-mul_right u (omega arith) in omega arith
]

-- A multiple of the last place is not changed.
exact_at : (k c m u : ℕ) → 0 < k → u ≡ k * c → k * nearest (m * u) (k * 1) ≡ m * u
exact_at k c m u pos whole =
    let multiple : m * u ≡ m * c * (k * 1) = omega (arith, ap (λ (x : ℕ). m * x) whole) in
    let near =
      subst (λ p. IsNear (nearest (m * u) (k * 1)) p (k * 1)) multiple
        (nearest-IsNear (m * u) (k * 1) (omega arith)) in
    let same = near_multiple (nearest (m * u) (k * 1)) (m * c) (k * 1) (omega arith) near in
    omega (arith, ap (λ (x : ℕ). k * x) same, multiple)

rounded_at :
    (n m f : ℕ)
    → m < 2 ^ 53
    → let k = last_place n 1 (m * 2 ^ f) 1 in k * nearest (m * 2 ^ f) (k * 1) ≡ m * 2 ^ f
rounded_at n m f small =
    let u = 2 ^ f in
    let k = last_place n 1 (m * u) 1 in
    let start : IsPlace 1 (m * u) 1 = record { positive = omega arith; leaves = inl refl } in
    let place = last_place-IsPlace n 1 (m * u) 1 start in
    let (d, k_eq) = last_place-power n 0 (m * u) 1 in
    let under = place_below k m u (power_positive f) small place in
    let (c, whole) = power_divides d f (power_below d f (subst (λ x. x < 2 * u) k_eq under)) in
    exact_at k c m u place.positive (whole ∙ ap (λ (x : ℕ). x * c) (sym k_eq))

-- Whole numbers of ones, below 2^53 of them.
pub round-exact : (m : ℕ) → m < 2 ^ 53 → round (m * unit) 1 ≡ m * unit
unfolding round unit
round-exact m small = rounded_at 2100 m 1074 small

le_of_leb : (a b : ℕ) → leb a b ≡ true → a ≤ b
le_of_leb a b h = ground arith

lt_of_leb : (a b : ℕ) → leb a b ≡ false → b < a
lt_of_leb a b h = ground arith

least_multiple : (n c k : ℕ) → 0 < k → 2 * (k * c) ≤ 2 * (n * k) + k → c ≤ n
least_multiple n c k pos h =
    let under : c < suc n = lt_of_mul-lt-mul_left k {m = c} {n = suc n} (omega arith) in omega arith

at_multiple :
    (k c u p n : ℕ) → 0 < k → u ≡ k * c → u ≤ p → 2 * p ≤ 2 * (n * (k * 1)) + k * 1 → u ≤ k * n
at_multiple k c u p n pos whole h near =
    let enough = least_multiple n c k pos (omega arith) in
    omega (arith, whole, mul-le-mul_right k enough)

past_power :
    (k u p n : ℕ)
    → IsPlace k p 1
    → leb k u ≡ false
    → u ≤ p
    → 2 * p ≤ 2 * (n * (k * 1)) + k * 1
    → u ≤ k * n
past_power k u p zero place above h near = elim place.leaves [
  | inl least ↦ omega arith
  | inr many ↦ absurd (omega (arith, place.positive))
]
past_power k u p (suc n) place above h near = let past = lt_of_leb k u above in omega arith

-- Rounding does not go below a power of 2.
at_least : (n p f : ℕ) → 2 ^ f ≤ p → let k = last_place n 1 p 1 in 2 ^ f ≤ k * nearest p (k * 1)
at_least n p f h =
    let k = last_place n 1 p 1 in
    let start : IsPlace 1 p 1 = record { positive = omega arith; leaves = inl refl } in
    let place = last_place-IsPlace n 1 p 1 start in
    let near = nearest-IsNear p (k * 1) (omega (arith, place.positive)) in
    let (d, k_eq) = last_place-power n 0 p 1 in
    elim (Bool-cases (leb k (2 ^ f))) [
      | inl below ↦
          let (c, whole) =
            power_divides d f (subst (λ x. x ≤ 2 ^ f) k_eq (le_of_leb k (2 ^ f) below)) in
          at_multiple k c (2 ^ f) p (nearest p (k * 1)) place.positive
            (whole ∙ ap (λ (x : ℕ). x * c) (sym k_eq)) h near.1
      | inr above ↦ past_power k (2 ^ f) p (nearest p (k * 1)) place above h near.1
    ]

pub round-at-least : (p : ℕ) → unit ≤ p → unit ≤ round p 1
unfolding round unit
round-at-least p h = at_least 2100 p 1074 h
