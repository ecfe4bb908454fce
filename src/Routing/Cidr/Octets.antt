-- ===== src/Routing/Cidr/Octets.antt =====
-- Dotted addresses as texts, and how a text is taken apart at its dots.
use net.Base.{
  ℕ, ◌≡◌, refl, ◌≢◌, Text, to_string, to_string-IsDigit, IsDigit, Free, Free-of_IsDigit, [], ◌∷◌,
  ◌++◌, All-append, arith,
}

-- The address a.b.c.d.
abbrev pub dotted : ℕ → ℕ → ℕ → ℕ → Text
dotted a b c d = to_string a ++ b'.' ∷ (to_string b ++ b'.' ∷ (to_string c ++ b'.' ∷ to_string d))

pub Free-to_string : (c : ℕ) (n : ℕ) → ¬ IsDigit c → Free c (to_string n)
Free-to_string c n h = Free-of_IsDigit c (to_string n) h (to_string-IsDigit n)

pub to_string-no_dot : (n : ℕ) → Free b'.' (to_string n)
to_string-no_dot n = Free-to_string b'.' n (omega arith)

pub to_string-no_slash : (n : ℕ) → Free b'/' (to_string n)
to_string-no_slash n = Free-to_string b'/' n (omega arith)

Free-dot : (p q : Text) → Free b'/' p → Free b'/' q → Free b'/' (p ++ b'.' ∷ q)
Free-dot p q f g = All-append (λ x. x ≢ b'/') p (b'.' ∷ q) f (omega arith, g)

pub dotted-no_slash : (a b c d : ℕ) → Free b'/' (dotted a b c d)
dotted-no_slash a b c d = Free-dot _ _ (to_string-no_slash a) (
    Free-dot _ _ (to_string-no_slash b)
      (Free-dot _ _ (to_string-no_slash c) (to_string-no_slash d)))

-- A text is cut in one way at its first separator.
pub cut_unique :
    (c : ℕ) (p q s t : Text) → Free c p → Free c q → p ++ c ∷ s ≡ q ++ c ∷ t → (p ≡ q) × (s ≡ t)
cut_unique c [] [] s t f g e = (refl, ground arith)
cut_unique c [] (y ∷ q) s t f g e = absurd (g.0 (ground arith))
cut_unique c (x ∷ p) [] s t f g e = absurd (f.0 (ground arith))
cut_unique c (x ∷ p) (y ∷ q) s t f g e =
    let (same, rest) = cut_unique c p q s t f.1 g.1 (ground arith) in (ground arith, rest)

-- What begins with a text free of the separator begins so before its first separator.
pub cut_prefix :
    (c : ℕ) (p q s t : Text) → Free c q → p ++ c ∷ s ≡ q ++ t → (u : Text) × (p ≡ q ++ u)
cut_prefix c p [] s t g e = (p, refl)
cut_prefix c [] (y ∷ q) s t g e = absurd (g.0 (ground arith))
cut_prefix c (x ∷ p) (y ∷ q) s t g e =
    let (u, same) = cut_prefix c p q s t g.1 (ground arith) in (u, ground arith)
