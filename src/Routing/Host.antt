-- ===== src/Routing/Host.antt =====
-- src/routing/route_snapshot.cpp: the test of a request's host against a rule's pattern.
use net.Base.{
  subst, sym, Text, codes, text_eq, text_eq_iff, starts_with, starts_with_iff, ends_with,
  ends_with_iff, drop, Bool, true, if◌then◌else◌, ◌≡◌, refl, ◌↔◌, ◌⊎◌, inl, inr, ◌++◌, arith,
  Bool-cases,
}

unfoldable pub host_matches : Text → Text → Bool
host_matches host pattern =
    if text_eq pattern (codes "*")
    then true
    else if starts_with pattern (codes "*.")
    then ends_with host (drop 2 pattern)
    else text_eq host pattern

-- A pattern `*.suffix` and a host that ends in the suffix.
abbrev pub IsWildcardFor : Text → Text → Type 0
IsWildcardFor host pattern =
    (suffix : Text) × (front : Text) × (pattern ≡ codes "*." ++ suffix) × (host ≡ front ++ suffix)

wildcard_sound :
    (host pattern suffix : Text)
    → pattern ≡ codes "*." ++ suffix
    → ends_with host (drop 2 pattern) ≡ true
    → IsWildcardFor host pattern
wildcard_sound host pattern suffix e h =
    let (front, f) =
      (ends_with_iff host suffix).0 (subst (λ p. ends_with host (drop 2 p) ≡ true) e h) in
    (suffix, front, e, f)

host_matches_sound :
    (host pattern : Text)
    → host_matches host pattern ≡ true
    → (pattern ≡ codes "*") ⊎ IsWildcardFor host pattern ⊎ (host ≡ pattern)
unfolding host_matches
host_matches_sound host pattern h = elim (Bool-cases (text_eq pattern (codes "*"))) [
  | inl star ↦ inl ((text_eq_iff _ _).0 star)
  | inr other ↦ elim (Bool-cases (starts_with pattern (codes "*."))) [
    | inl wild ↦
        let (suffix, e) = (starts_with_iff pattern (codes "*.")).0 wild in
        inr (inl (wildcard_sound host pattern suffix e (ground arith)))
    | inr exact ↦ inr (inr ((text_eq_iff host pattern).0 (ground arith)))
  ]
]

host_matches-suffix :
    (suffix front : Text) → host_matches (front ++ suffix) (codes "*." ++ suffix) ≡ true
unfolding host_matches text_eq starts_with
host_matches-suffix suffix front = (ends_with_iff (front ++ suffix) suffix).1 (front, refl)

host_matches_refl : (host : Text) → host_matches host host ≡ true
unfolding host_matches
host_matches_refl host = elim (Bool-cases (starts_with host (codes "*."))) [
  | inl wild ↦
      let (suffix, e) = (starts_with_iff host (codes "*.")).0 wild in
      subst (λ h. host_matches h h ≡ true) (sym e) (host_matches-suffix suffix (codes "*."))
  | inr exact ↦ ground (arith, text_eq_iff host host)
]

-- A host matches exactly when the pattern is `*`, or is `*.suffix` for a suffix of the host, or is
-- the host itself. Nothing asks that a dot stand before the suffix.
pub host_matches_iff :
    (host pattern : Text)
    → (host_matches host pattern ≡ true)
      ↔ ((pattern ≡ codes "*") ⊎ IsWildcardFor host pattern ⊎ (host ≡ pattern))
unfolding host_matches text_eq
host_matches_iff host pattern = (
  host_matches_sound host pattern,
  elim [
    | inl star ↦ rw star refl
    | inr (inl (suffix, front, e, f)) ↦ rw (e, f) (host_matches-suffix suffix front)
    | inr (inr same) ↦ rw same (host_matches_refl pattern)
  ],
)
