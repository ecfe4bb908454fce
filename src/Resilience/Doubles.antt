-- ===== src/Resilience/Doubles.antt =====
-- `double` of the C++ sources: binary64 with rounding to nearest, ties to even, as far as
-- src/resilience/rate_limiter.cpp uses it. A double that is not negative and finite is a whole number of
-- units of 2^-1074, the smallest there is; no result here comes near the largest.
pub mod Rounding
pub mod Exact
use net.Base.{
  ℕ, zero, suc, ◌+◌, ◌-◌, ◌*◌, ◌/◌, ◌%◌, ◌^◌, Bool, true, false, ◌&&◌, ◌||◌, ltb, ◌==◌,
  if◌then◌else◌,
}

abbrev pub Double : Type 0
Double = ℕ

-- 1.0
unfoldable pub unit : Double
unit = 2 ^ 1074

-- The whole number nearest to p / q, and of two that are equally near the even one.
pub nearest : ℕ → ℕ → ℕ
nearest p q =
    if ltb q (2 * (p % q)) || (2 * (p % q) == q && p / q % 2 == 1) then p / q + 1 else p / q

-- The unit of the last place of p / q: k doubled until at most 53 bits are left.
pub last_place : ℕ → ℕ → ℕ → ℕ → ℕ
last_place zero k p q = k
last_place (suc n) k p q = elim (ltb p (2 ^ 53 * (k * q))) [
  | true ↦ k
  | false ↦ last_place n (2 * k) p q
]

-- The double nearest to p / q. The fuel is enough for all that is below 2^2153 units, which is more than
-- the largest double.
unfoldable pub round : ℕ → ℕ → Double
unfolding nearest last_place
round p q = let k = last_place 2100 1 p q in k * nearest p (k * q)

-- Conversions: of 64-bit integers, and of 32-bit integers, which are all represented.
unfoldable pub of_i64 : ℕ → Double
unfolding round unit
of_i64 n = round (n * unit) 1

unfoldable pub of_u32 : ℕ → Double
unfolding unit
of_u32 n = n * unit

unfoldable pub add : Double → Double → Double
unfolding round
add x y = round (x + y) 1

-- Where y is not larger.
unfoldable pub sub : Double → Double → Double
unfolding round
sub x y = round (x - y) 1

unfoldable pub mul : Double → Double → Double
unfolding round unit
mul x y = round (x * y) unit

unfoldable pub div : Double → Double → Double
unfolding round unit
div x y = round (x * unit) y
