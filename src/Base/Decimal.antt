-- ===== src/Base/Decimal.antt =====
-- `std::to_string` and `operator<<` on unsigned numbers.
use Prim.Native.Nat.{ℕ, zero, suc, ◌+◌, ◌-◌, ◌*◌, ◌/◌, ◌%◌, ◌≤◌, ◌<◌}
use mathlib.Core.Path.{◌≡◌, refl, ap, sym, ◌∙◌}
use mathlib.Core.Logic.{◌≢◌}
use mathlib.Core.List.{[], ◌∷◌, ◌++◌}
use native.Mathlib.Omega.{arith}
use net.Base.Tests.{ltb, if◌then◌else◌}
use net.Base.Lists.{All, All-append}
use net.Base.Strings.{Text, Free}

digits : ℕ → ℕ → Text
digits zero n = []
digits (suc f) n =
    let more = digits f (n / 10) in if ltb n 10 then (48 + n) ∷ [] else more ++ (48 + n % 10) ∷ []

unfoldable pub to_string : ℕ → Text
unfolding digits
to_string n = digits (suc n) n

unfoldable pub decimal_from : ℕ → Text → ℕ
decimal_from acc [] = acc
decimal_from acc (c ∷ s) = decimal_from (acc * 10 + (c - 48)) s

-- The number that a text of digits stands for.
unfoldable pub decimal : Text → ℕ
unfolding decimal_from
decimal s = decimal_from 0 s

abbrev pub IsDigit : ℕ → Type 0
IsDigit c = (48 ≤ c) × (c ≤ 57)

decimal_from-append :
    (acc : ℕ) (s : Text) (c : ℕ)
    → decimal_from acc (s ++ c ∷ []) ≡ decimal_from acc s * 10 + (c - 48)
unfolding decimal_from
decimal_from-append acc [] c = refl
decimal_from-append acc (d ∷ s) c = decimal_from-append (acc * 10 + (d - 48)) s c

decimal-digits : (f n : ℕ) → n < f → decimal_from 0 (digits f n) ≡ n
unfolding digits decimal_from
decimal-digits zero n h = elim h [ ]
decimal-digits (suc f) n h =
    ground
      (arith, decimal_from-append 0 (digits f (n / 10)) (48 + n % 10), decimal-digits f (n / 10))

pub decimal-to_string : (n : ℕ) → decimal (to_string n) ≡ n
unfolding decimal to_string
decimal-to_string n = decimal-digits (suc n) n (omega arith)

pub to_string_injective : (m n : ℕ) → to_string m ≡ to_string n → m ≡ n
to_string_injective m n e = sym (decimal-to_string m) ∙ ap decimal e ∙ decimal-to_string n

digits-IsDigit : (f n : ℕ) → All IsDigit (digits f n)
unfolding digits
digits-IsDigit zero n = tt
digits-IsDigit (suc f) n =
    ground (
      arith,
      digits-IsDigit f (n / 10),
      All-append IsDigit (digits f (n / 10)) ((48 + n % 10) ∷ []),
    )

pub to_string-IsDigit : (n : ℕ) → All IsDigit (to_string n)
unfolding to_string
to_string-IsDigit n = digits-IsDigit (suc n) n

pub Free-of_IsDigit : (c : ℕ) (s : Text) → ¬ IsDigit c → All IsDigit s → Free c s
Free-of_IsDigit c [] h k = tt
Free-of_IsDigit c (x ∷ s) h k = (λ e. h (ground arith), Free-of_IsDigit c s h k.1)

snoc-ne-nil : (s : Text) (c : ℕ) → s ++ c ∷ [] ≢ []
snoc-ne-nil [] c = λ e. cc
snoc-ne-nil (x ∷ s) c = λ e. cc

pub to_string-ne-nil : (n : ℕ) → to_string n ≢ []
unfolding to_string
to_string-ne-nil n = λ e. ground (arith, e, snoc-ne-nil (digits n (n / 10)) (48 + n % 10))
