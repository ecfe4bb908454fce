-- ===== src/Resilience/RateLimiter/Refill.antt =====
-- How much accrues in a limiter, with the rounding of its doubles.
use net.Base.{ℕ, ◌+◌, ◌-◌, ◌*◌, ◌^◌, ◌<◌, ◌≤◌, arith}
use native.Mathlib.Nat.{le_of_mul-le-mul_left, mul-le-mul_right}
use net.Resilience.Doubles.{unit, round, of_i64, of_u32, mul, div}
use net.Resilience.Doubles.Rounding.{round-bounds, IsClose, round-IsClose}
use net.Resilience.RateLimiter.{second, tokens_to_add}

pub unit_large : 2 ^ 300 ≤ unit
unfolding unit
unit_large = omega arith

pub unit_positive : 0 < unit
unit_positive = omega (arith, unit_large)

-- A product by a whole number of ones.
mul-IsClose : (x r u : ℕ) → 0 < u → IsClose (round (x * (r * u)) u) (x * r)
mul-IsClose x r u pos =
    let (above, below) = round-bounds (x * (r * u)) u pos in
    (
      le_of_mul-le-mul_left {k = u} (omega (arith, above)) pos,
      le_of_mul-le-mul_left {k = u} (omega (arith, below)) pos,
    )

-- A quotient by the ones in a second.
div-bounds :
    (x u : ℕ)
    → 0 < u
    → (2 ^ 53 * (round (x * u) (second * u) * second) ≤ 2 ^ 53 * x + x + 2 ^ 52 * second)
      × (2 ^ 53 * x ≤ 2 ^ 53 * (round (x * u) (second * u) * second) + x + 2 ^ 52 * second)
div-bounds x u pos =
    let (above, below) = round-bounds (x * u) (second * u) (omega (arith, pos)) in
    (
      le_of_mul-le-mul_left {k = u} (omega (arith, above)) pos,
      le_of_mul-le-mul_left {k = u} (omega (arith, below)) pos,
    )

-- Three roundings.
chain_above :
    (x e m n r u : ℕ)
    → r < 2 ^ 32
    → 2 ^ 53 * x ≤ 2 ^ 53 * (e * r) + e * r + 2 ^ 52
    → 2 ^ 53 * (e * second) ≤ 2 ^ 53 * m + m + 2 ^ 52 * second
    → 2 ^ 53 * m ≤ 2 ^ 53 * (n * u) + n * u + 2 ^ 52
    → 2 ^ 51 * (x * second) ≤ (2 ^ 51 + 1) * (n * r * u) + 2 ^ 130
chain_above x e m n r u word h k l = omega (arith, mul-le-mul_right r k, mul-le-mul_right r l)

chain_below :
    (x e m n r u : ℕ)
    → r < 2 ^ 32
    → 2 ^ 53 * (e * r) ≤ 2 ^ 53 * x + e * r + 2 ^ 52
    → 2 ^ 53 * m ≤ 2 ^ 53 * (e * second) + m + 2 ^ 52 * second
    → 2 ^ 53 * (n * u) ≤ 2 ^ 53 * m + n * u + 2 ^ 52
    → (2 ^ 51 - 1) * (n * r * u) ≤ 2 ^ 51 * (x * second) + 2 ^ 130
chain_below x e m n r u word h k l = omega (arith, mul-le-mul_right r k, mul-le-mul_right r l)

-- What is added is the rate times the time, but for 2^-51 of it.
pub tokens_to_add-bounds :
    (n r : ℕ)
    → r < 2 ^ 32
    → (2 ^ 51 * (tokens_to_add n r * second) ≤ (2 ^ 51 + 1) * (n * r * unit) + 2 ^ 130)
      × ((2 ^ 51 - 1) * (n * r * unit) ≤ 2 ^ 51 * (tokens_to_add n r * second) + 2 ^ 130)
unfolding tokens_to_add of_i64 of_u32 mul div
tokens_to_add-bounds n r word =
    let m = round (n * unit) 1 in
    let e = round (m * unit) (second * unit) in
    let x = round (e * (r * unit)) unit in
    let (m_above, m_below) = round-IsClose (n * unit) in
    let (e_above, e_below) = div-bounds m unit unit_positive in
    let (x_above, x_below) = mul-IsClose e r unit unit_positive in
    (
      chain_above x e m n r unit word x_above e_above m_above,
      chain_below x e m n r unit word x_below e_below m_below,
    )
