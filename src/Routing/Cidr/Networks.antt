-- ===== src/Routing/Cidr/Networks.antt =====
-- Which dotted addresses `ip_in_cidr` takes to lie in a network.
use net.Base.{
  ℕ, suc, ◌+◌, ◌≡◌, refl, ap, ap₂, sym, ◌∙◌, ◌↔◌, Text, codes, text_eq, text_eq_iff, to_string,
  to_string_injective, Free, [], ◌∷◌, ◌++◌, arith, length, take, append_assoc, subst, find, rfind,
  find-append, rfind-append, substr_to, drop, take-append_left, take-append-drop, length-append,
  true, some,
}
use net.Routing.Cidr.{second_dot, in_prefix, in_wide_prefix, ip_in_cidr, in_slash16}
use net.Routing.Cidr.Octets.{dotted, dotted-no_slash, to_string-no_dot, cut_unique, cut_prefix}

-- The part before the slash is the prefix, the part behind it the length.
ip_in_cidr-in_prefix :
    (ip p len : Text) → Free b'/' p → ip_in_cidr ip (p ++ b'/' ∷ len) ≡ in_prefix ip p len
unfolding ip_in_cidr
ip_in_cidr-in_prefix ip p len f =
    rw (find-append p len b'/' f, take-append_left p (b'/' ∷ len))
      (ap (in_prefix ip p) (drop-suc p len))
  where
    drop-suc : (p len : Text) → drop (suc (length p)) (p ++ b'/' ∷ len) ≡ len
    drop-suc [] len = refl
    drop-suc (x ∷ p) len = drop-suc p len

abbrev two : ℕ → ℕ → Text
two a b = to_string a ++ b'.' ∷ to_string b

abbrev three : ℕ → ℕ → ℕ → Text
three a b c = to_string a ++ b'.' ∷ (to_string b ++ b'.' ∷ to_string c)

first_octet : (a b c d : ℕ) → substr_to (dotted a b c d) (find (dotted a b c d) b'.') ≡ to_string a
first_octet a b c d =
    rw (find-append (to_string a) _ b'.' (to_string-no_dot a)) (take-append_left (to_string a) _)

dotted-three : (a b c d : ℕ) → dotted a b c d ≡ three a b c ++ b'.' ∷ to_string d
dotted-three a b c d = simp append_assoc

three_octets :
    (a b c d : ℕ) → substr_to (dotted a b c d) (rfind (dotted a b c d) b'.') ≡ three a b c
three_octets a b c d =
    rw (dotted-three a b c d, rfind-append (three a b c) (to_string d) b'.' (to_string-no_dot d))
      (take-append_left (three a b c) _)

second_dot-first :
    (s t : Text) (i : ℕ)
    → Free b'.' s
    → second_dot 0 (s ++ b'.' ∷ t) i ≡ second_dot 1 t (i + length s + 1)
unfolding second_dot
second_dot-first [] t i f = ap (second_dot 1 t) (omega arith)
second_dot-first (x ∷ s) t i f = ground (arith, second_dot-first s t (suc i) f.1)

second_dot-second :
    (s t : Text) (i : ℕ) → Free b'.' s → second_dot 1 (s ++ b'.' ∷ t) i ≡ some (i + length s)
unfolding second_dot
second_dot-second [] t i f = ground arith
second_dot-second (x ∷ s) t i f = ground (arith, second_dot-second s t (suc i) f.1)

second_dot-dotted : (a b c d : ℕ) → second_dot 0 (dotted a b c d) 0 ≡ some (length (two a b))
second_dot-dotted a b c d =
    second_dot-first (to_string a) _ 0 (to_string-no_dot a)
    ∙ second_dot-second (to_string b) _ (0 + length (to_string a) + 1) (to_string-no_dot b)
    ∙ ap some (omega (arith, length-append (to_string a) (b'.' ∷ to_string b)))

dotted-two : (a b c d : ℕ) → dotted a b c d ≡ two a b ++ b'.' ∷ (to_string c ++ b'.' ∷ to_string d)
dotted-two a b c d = simp append_assoc

slash8_octets :
    (a b c d a' b' c' d' : ℕ)
    → ip_in_cidr (dotted a b c d) (dotted a' b' c' d' ++ codes "/8")
      ≡ text_eq (to_string a') (to_string a)
unfolding in_prefix in_wide_prefix text_eq
slash8_octets a b c d a' b' c' d' =
    ip_in_cidr-in_prefix (dotted a b c d) (dotted a' b' c' d') (codes "8")
      (dotted-no_slash a' b' c' d')
    ∙ ap₂ text_eq (first_octet a' b' c' d') (first_octet a b c d)

slash24_octets :
    (a b c d a' b' c' d' : ℕ)
    → ip_in_cidr (dotted a b c d) (dotted a' b' c' d' ++ codes "/24")
      ≡ text_eq (three a' b' c') (three a b c)
unfolding in_prefix text_eq
slash24_octets a b c d a' b' c' d' =
    ip_in_cidr-in_prefix (dotted a b c d) (dotted a' b' c' d') (codes "24")
      (dotted-no_slash a' b' c' d')
    ∙ ap₂ text_eq (three_octets a' b' c' d') (three_octets a b c d)

slash16_octets :
    (a b c d a' b' c' d' : ℕ)
    → ip_in_cidr (dotted a b c d) (dotted a' b' c' d' ++ codes "/16")
      ≡ text_eq (take (length (two a' b')) (dotted a b c d)) (two a' b')
unfolding in_prefix text_eq
slash16_octets a b c d a' b' c' d' =
    ip_in_cidr-in_prefix (dotted a b c d) (dotted a' b' c' d') (codes "16")
      (dotted-no_slash a' b' c' d')
    ∙ ap (in_slash16 (dotted a b c d) (dotted a' b' c' d') (codes "16"))
        (second_dot-dotted a' b' c' d')
    ∙ ap (text_eq (take (length (two a' b')) (dotted a b c d)))
        (rw (dotted-two a' b' c' d') (take-append_left (two a' b') _))

-- Under /8 an address lies in the network exactly when the first octets are equal.
pub in_slash8_iff :
    (a b c d a' b' c' d' : ℕ)
    → (ip_in_cidr (dotted a b c d) (dotted a' b' c' d' ++ codes "/8") ≡ true) ↔ (a ≡ a')
in_slash8_iff a b c d a' b' c' d' = (
  λ h. sym (
      to_string_injective a' a ((text_eq_iff _ _).0 (sym (slash8_octets a b c d a' b' c' d') ∙ h))),
  λ e. slash8_octets a b c d a' b' c' d' ∙ (text_eq_iff _ _).1 (ap to_string (sym e)),
)

three_injective :
    (a b c a' b' c' : ℕ) → three a b c ≡ three a' b' c' → (a ≡ a') × (b ≡ b') × (c ≡ c')
three_injective a b c a' b' c' e =
    let (p, q) = cut_unique b'.' _ _ _ _ (to_string-no_dot a) (to_string-no_dot a') e in
    let (r, s) = cut_unique b'.' _ _ _ _ (to_string-no_dot b) (to_string-no_dot b') q in
    (to_string_injective a a' p, to_string_injective b b' r, to_string_injective c c' s)

-- Under /24 an address lies in the network exactly when the first three octets are equal.
pub in_slash24_iff :
    (a b c d a' b' c' d' : ℕ)
    → (ip_in_cidr (dotted a b c d) (dotted a' b' c' d' ++ codes "/24") ≡ true)
      ↔ ((a ≡ a') × (b ≡ b') × (c ≡ c'))
in_slash24_iff a b c d a' b' c' d' = (
  λ h.
      three_injective a b c a' b' c'
        (sym ((text_eq_iff _ _).0 (sym (slash24_octets a b c d a' b' c' d') ∙ h))),
  λ e.
      slash24_octets a b c d a' b' c' d'
      ∙ (text_eq_iff (three a' b' c') (three a b c)).1 (rw (e.0, e.1, e.2)),
)

slash16_sound :
    (a b c d a' b' : ℕ)
    → take (length (two a' b')) (dotted a b c d) ≡ two a' b'
    → (a ≡ a') × ((more : Text) × (to_string b ≡ to_string b' ++ more))
slash16_sound a b c d a' b' h =
    let n = length (two a' b') in
    let rest = drop n (dotted a b c d) in
    let whole : dotted a b c d ≡ to_string a' ++ b'.' ∷ (to_string b' ++ rest) =
      sym (take-append-drop n (dotted a b c d))
      ∙ ap (λ x. x ++ rest) h
      ∙ append_assoc (to_string a') (b'.' ∷ to_string b') rest in
    let (first, second) =
      cut_unique b'.' _ _ _ _ (to_string-no_dot a) (to_string-no_dot a') whole in
    (to_string_injective a a' first, cut_prefix b'.' _ _ _ rest (to_string-no_dot b') second)

slash16_complete :
    (a b c d b' : ℕ) (more : Text)
    → to_string b ≡ to_string b' ++ more
    → take (length (two a b')) (dotted a b c d) ≡ two a b'
slash16_complete a b c d b' more e = rw e (
    ap (take (length (two a b'))) (simp append_assoc)
    ∙ take-append_left (two a b') (more ++ b'.' ∷ (to_string c ++ b'.' ∷ to_string d)))

-- Under /16 an address lies in the network exactly when the first octets are equal and the decimal
-- text of its second octet begins with that of the network's: 10.12.3.4 lies in 10.1.0.0/16.
pub in_slash16_iff :
    (a b c d a' b' c' d' : ℕ)
    → (ip_in_cidr (dotted a b c d) (dotted a' b' c' d' ++ codes "/16") ≡ true)
      ↔ ((a ≡ a') × ((more : Text) × (to_string b ≡ to_string b' ++ more)))
in_slash16_iff a b c d a' b' c' d' = (
  λ h.
      slash16_sound a b c d a' b'
        ((text_eq_iff _ _).0 (sym (slash16_octets a b c d a' b' c' d') ∙ h)),
  λ (same, (more, begins)).
      slash16_octets a b c d a' b' c' d'
      ∙ (text_eq_iff _ _).1 (
          subst (λ x. take (length (two x b')) (dotted a b c d) ≡ two x b') same
            (slash16_complete a b c d b' more begins)),
)
