-- ===== src/Base/Strings.antt =====
-- `std::string` and `std::string_view` as lists of bytes, with the operations that the sources use.
use Prim.Native.Nat.{ℕ, suc, ◌-◌}
use Prim.Native.Char.{code}
use Prim.Native.String.{String}
use mathlib.Core.Path.{◌≡◌, refl, ap, sym, ◌∙◌}
use mathlib.Core.Logic.{◌≢◌, ◌↔◌}
use mathlib.Core.Bool.{Bool, true, false, ◌&&◌}
use mathlib.Core.List.{List, [], ◌∷◌, ◌++◌}
use mathlib.Core.Option.{Option, none, some}
use native.Mathlib.Omega.{arith}
use net.Base.Tests.{leb, ◌==◌, if◌then◌else◌}
use net.Base.Lists.{length, take, drop, All, length-append, drop-append_left, take-append-drop}

abbrev pub Text : Type 0
Text = List ℕ

-- The bytes of an ASCII literal.
abbrev pub codes : String → Text
codes String.[] = []
codes (String.◌∷◌ c s) = code c ∷ codes s

-- `a == b` on texts.
unfoldable pub text_eq : Text → Text → Bool
text_eq [] [] = true
text_eq (x ∷ xs) (y ∷ ys) = x == y && text_eq xs ys
text_eq _ _ = false

-- `s.starts_with(p)`
unfoldable pub starts_with : Text → Text → Bool
starts_with s [] = true
starts_with [] (p ∷ ps) = false
starts_with (c ∷ s) (p ∷ ps) = c == p && starts_with s ps

-- `s.ends_with(p)`
unfoldable pub ends_with : Text → Text → Bool
unfolding text_eq
ends_with s p = leb (length p) (length s) && text_eq (drop (length s - length p) s) p

-- `s.find(c)`; `none` is `npos`.
unfoldable pub find : Text → ℕ → Option ℕ
find [] c = none
find (x ∷ s) c =
    let rest = find s c in
    if x == c then some 0 else elim rest [ none ↦ none | some i ↦ some (suc i) ]

-- `s.rfind(c)`; `none` is `npos`.
unfoldable pub rfind : Text → ℕ → Option ℕ
rfind [] c = none
rfind (x ∷ s) c = elim (rfind s c) [
  | some i ↦ some (suc i)
  | none ↦ if x == c then some 0 else none
]

-- `s.substr(0, pos)`, the whole text for `npos`.
abbrev pub substr_to : Text → Option ℕ → Text
substr_to s none = s
substr_to s (some i) = take i s

pub text_eq_iff : (s t : Text) → (text_eq s t ≡ true) ↔ (s ≡ t)
unfolding text_eq
text_eq_iff [] [] = ground arith
text_eq_iff [] (y ∷ t) = ground arith
text_eq_iff (x ∷ s) [] = ground arith
text_eq_iff (x ∷ s) (y ∷ t) = ground (arith, text_eq_iff s t)

pub text_eq_refl : (s : Text) → text_eq s s ≡ true
text_eq_refl s = (text_eq_iff s s).1 refl

-- `c` does not occur in the text.
abbrev pub Free : ℕ → Text → Type 0
Free c = All (λ x. x ≢ c)

pub starts_with_iff : (s p : Text) → (starts_with s p ≡ true) ↔ ((rest : Text) × (s ≡ p ++ rest))
unfolding starts_with
starts_with_iff s [] = (λ h. (s, refl), λ h. refl)
starts_with_iff [] (p ∷ ps) = (λ h. cc, λ h. cc h.1)
starts_with_iff (c ∷ s) (p ∷ ps) = (
  λ h. let (rest, e) = (starts_with_iff s ps).0 (ground arith) in (rest, ground arith),
  λ h. ground (arith, (starts_with_iff s ps).1 (h.0, ground arith), h.1),
)

ends_with-append : (s p : Text) → ends_with (s ++ p) p ≡ true
unfolding ends_with
ends_with-append s p =
    let e : length (s ++ p) - length p ≡ length s = omega (arith, length-append s p) in
    rw (e, drop-append_left s p) (ground (arith, length-append s p, text_eq_iff p p))

pub ends_with_iff : (s p : Text) → (ends_with s p ≡ true) ↔ ((front : Text) × (s ≡ front ++ p))
unfolding ends_with
ends_with_iff s p = (
  λ h. (
    take (length s - length p) s,
    sym (take-append-drop (length s - length p) s)
        ∙ ap (◌++◌ (take (length s - length p) s)) ((text_eq_iff _ p).0 (ground arith)),
  ),
  λ h. rw (h.1) (ends_with-append h.0 p),
)

pub find-append : (s t : Text) (c : ℕ) → Free c s → find (s ++ c ∷ t) c ≡ some (length s)
unfolding find
find-append [] t c h = ground arith
find-append (x ∷ s) t c h = ground (arith, find-append s t c h.1)

pub find-Free : (s : Text) (c : ℕ) → Free c s → find s c ≡ none
unfolding find
find-Free [] c h = refl
find-Free (x ∷ s) c h = ground (arith, find-Free s c h.1)

pub rfind-Free : (s : Text) (c : ℕ) → Free c s → rfind s c ≡ none
unfolding rfind
rfind-Free [] c h = refl
rfind-Free (x ∷ s) c h = ground (arith, rfind-Free s c h.1)

pub rfind-append : (s t : Text) (c : ℕ) → Free c t → rfind (s ++ c ∷ t) c ≡ some (length s)
unfolding rfind
rfind-append [] t c h = ground (arith, rfind-Free t c h)
rfind-append (x ∷ s) t c h = ground (arith, rfind-append s t c h)
