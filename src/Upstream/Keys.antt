-- ===== src/Upstream/Keys.antt =====
-- The keys of the pools.
use net.Base.{
  ℕ, ◌≡◌, refl, Text, to_string, to_string_injective, to_string-IsDigit, Free, Free-of_IsDigit, [],
  ◌∷◌, ◌++◌, arith,
}
use net.Upstream.{make_pool_key}

not-Free : (c : ℕ) (q t s : Text) → Free c s → s ≡ q ++ c ∷ t → ⊥
not-Free c [] t [] f e = cc
not-Free c [] t (x ∷ s) f e = f.0 (ground arith)
not-Free c (z ∷ q) t [] f e = cc
not-Free c (z ∷ q) t (x ∷ s) f e = not-Free c q t s f.1 (ground arith)

-- A text is cut in one way at its last separator.
last_cut_unique :
    (c : ℕ) (p q s t : Text) → Free c s → Free c t → p ++ c ∷ s ≡ q ++ c ∷ t → (p ≡ q) × (s ≡ t)
last_cut_unique c [] [] s t f g e = (refl, ground arith)
last_cut_unique c [] (y ∷ q) s t f g e = absurd (not-Free c q t s f (ground arith))
last_cut_unique c (x ∷ p) [] s t f g e = absurd (not-Free c p s t g (ground arith))
last_cut_unique c (x ∷ p) (y ∷ q) s t f g e =
    let (same, rest) = last_cut_unique c p q s t f g (ground arith) in (ground arith, rest)

-- Two hosts and ports share a pool only if they are the same, whatever bytes the hosts are made of.
pub make_pool_key_injective :
    (host host' : Text) (port port' : ℕ)
    → make_pool_key host port ≡ make_pool_key host' port'
    → (host ≡ host') × (port ≡ port')
unfolding make_pool_key
make_pool_key_injective host host' port port' e =
    let no_colon =
      λ (n : ℕ). Free-of_IsDigit b':' (to_string n) (omega arith) (to_string-IsDigit n) in
    let (hosts, ports) = last_cut_unique b':' host host' _ _ (no_colon port) (no_colon port') e in
    (hosts, to_string_injective port port' ports)
