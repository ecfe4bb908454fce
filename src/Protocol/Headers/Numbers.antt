-- ===== src/Protocol/Headers/Numbers.antt =====
-- Reading a Content-Length.
use net.Base.{
  ℕ, ◌+◌, ◌-◌, ◌*◌, ◌≡◌, refl, ap, ◌∙◌, Text, [], ◌∷◌, none, some, if◌then◌else◌, arith, All, ltb,
  to_string, IsDigit, to_string-IsDigit, to_string-ne-nil, ◌≢◌, decimal, decimal_from,
  decimal-to_string,
}
use net.Protocol.Headers.{u64_mod, read_digits, stoull}

read_digits-decimal_from :
    (acc : ℕ) (s : Text) → All IsDigit s → read_digits acc s ≡ decimal_from acc s
unfolding read_digits decimal_from
read_digits-decimal_from acc [] h = refl
read_digits-decimal_from acc (c ∷ s) h =
    ground (arith, h.0, read_digits-decimal_from (acc * 10 + (c - 48)) s h.1)

stoull-digits :
    (c : ℕ) (s : Text)
    → All IsDigit (c ∷ s)
    → stoull (c ∷ s) ≡ (if ltb (decimal (c ∷ s)) u64_mod then some (decimal (c ∷ s)) else none)
unfolding stoull decimal
stoull-digits c s h = ground (arith, h.0, read_digits-decimal_from (0 * 10 + (c - 48)) s h.1)

stoull-eq_decimal :
    (s : Text)
    → s ≢ []
    → All IsDigit s
    → stoull s ≡ (if ltb (decimal s) u64_mod then some (decimal s) else none)
stoull-eq_decimal [] some_digit h = absurd (some_digit refl)
stoull-eq_decimal (c ∷ s) some_digit h = stoull-digits c s h

-- A number printed in decimal is read back if it fits 64 bits, and is out of range otherwise.
pub stoull-to_string : (n : ℕ) → stoull (to_string n) ≡ (if ltb n u64_mod then some n else none)
stoull-to_string n =
    stoull-eq_decimal (to_string n) (to_string-ne-nil n) (to_string-IsDigit n)
    ∙ ap (λ m. if ltb m u64_mod then some m else none) (decimal-to_string n)
