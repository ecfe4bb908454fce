-- ===== src/Routing/Segments.antt =====
-- src/routing/route_snapshot.cpp: `split_path`, and the same cut described piece by piece.
pub mod Join
use net.Base.{
  ℕ, zero, suc, ◌+◌, ◌≤◌, ◌<◌, ◌≡◌, refl, ap, ◌≢◌, Text, List, [], ◌∷◌, ◌++◌, Bool, not, true,
  false, find, Option, none, some, take, drop, length, ◌==◌, if◌then◌else◌, arith, keep, is_empty,
  ℕ_discrete, Free, All, find-append, find-Free, take-append_left, drop-append_left, length-append,
  append-nil, take_all, drop_all, sym, ◌∙◌,
}

-- `if (end == npos) { end = path.size(); }`
abbrev or_size : Option ℕ → Text → ℕ
or_size none s = length s
or_size (some i) s = i

-- The loop, over the text from `start` on.
split_from : ℕ → Text → List Text
split_from zero rest = []
split_from (suc fuel) [] = []
split_from (suc fuel) (c ∷ s) =
    let skipped = split_from fuel s in
    let end = or_size (find (c ∷ s) b'/') (c ∷ s) in
    let cut = take end (c ∷ s) ∷ split_from fuel (drop end (c ∷ s)) in
    if c == b'/' then skipped else cut

-- A path that does not begin with a slash has no segments. Each round of the loop moves `start`, so
-- the path's length is fuel enough.
unfoldable pub split_path : Text → List Text
unfolding split_from
split_path [] = []
split_path (c ∷ s) =
    let segments = split_from (length (c ∷ s)) (c ∷ s) in if c == b'/' then segments else []

pub split_path-nil : split_path [] ≡ []
unfolding split_path
split_path-nil = refl

pub split_path-root : split_path (b'/' ∷ []) ≡ []
unfolding split_path
split_path-root = refl

-- A text cut at each slash, empty pieces kept.
add_first : ℕ → List Text → List Text
add_first c [] = (c ∷ []) ∷ []
add_first c (p ∷ ps) = (c ∷ p) ∷ ps

pub pieces : Text → List Text
unfolding add_first
pieces [] = [] ∷ []
pieces (c ∷ s) = if c == b'/' then [] ∷ pieces s else add_first c (pieces s)

pub non_empty : List Text → List Text
non_empty = keep (λ p. not (is_empty p))

pieces-Free : (s : Text) → Free b'/' s → pieces s ≡ s ∷ []
unfolding pieces
pieces-Free [] h = refl
pieces-Free (c ∷ s) h = ground (arith, pieces-Free s h.1)

pieces-append : (s t : Text) → Free b'/' s → pieces (s ++ b'/' ∷ t) ≡ s ∷ pieces t
unfolding pieces
pieces-append [] t h = refl
pieces-append (c ∷ s) t h = ground (arith, pieces-append s t h.1)

-- Where the first slash is.
data Cut (s : Text) : Type 0 where
  whole : Free b'/' s → Cut s
  at : (p t : Text) → Free b'/' p → s ≡ p ++ b'/' ∷ t → Cut s

cut : (s : Text) → Cut s
cut [] = whole tt
cut (c ∷ s) = elim (ℕ_discrete c b'/') [
  | yes e ↦ at [] s tt (ap (λ (x : ℕ). x ∷ s) e)
  | no e ↦ elim (cut s) [ whole h ↦ whole (e, h) | at p t h q ↦ at (c ∷ p) t (e, h) (ap (◌∷◌ c) q) ]
]

split_from-nil : (fuel : ℕ) → split_from fuel [] ≡ []
unfolding split_from
split_from-nil zero = refl
split_from-nil (suc fuel) = refl

split_from-word :
    (fuel c : ℕ) (p t : Text)
    → Free b'/' (c ∷ p)
    → split_from (suc fuel) (c ∷ (p ++ b'/' ∷ t)) ≡ (c ∷ p) ∷ split_from fuel (b'/' ∷ t)
unfolding split_from
split_from-word fuel c p t h =
    rw (find-append (c ∷ p) t b'/' h, take-append_left p (b'/' ∷ t), drop-append_left p (b'/' ∷ t))
      (ground (arith, h.0))

split_from-last :
    (fuel c : ℕ) (p : Text) → Free b'/' (c ∷ p) → split_from (suc fuel) (c ∷ p) ≡ (c ∷ p) ∷ []
unfolding split_from
split_from-last fuel c p h =
    rw (find-Free (c ∷ p) b'/' h, take_all p, drop_all p) (ground (arith, h.0, split_from-nil fuel))

split_from-slash : (fuel : ℕ) (s : Text) → split_from (suc fuel) (b'/' ∷ s) ≡ split_from fuel s
unfolding split_from
split_from-slash fuel s = refl

pub non_empty-slash : (s : Text) → non_empty (pieces (b'/' ∷ s)) ≡ non_empty (pieces s)
unfolding non_empty pieces
non_empty-slash s = refl

pub non_empty-word :
    (c : ℕ) (p t : Text)
    → Free b'/' (c ∷ p)
    → non_empty (pieces (c ∷ (p ++ b'/' ∷ t))) ≡ (c ∷ p) ∷ non_empty (pieces (b'/' ∷ t))
unfolding non_empty
non_empty-word c p t h = rw (pieces-append (c ∷ p) t h) (ap (◌∷◌ (c ∷ p)) (sym (non_empty-slash t)))

split_from-pieces :
    (fuel : ℕ) (s : Text) → length s ≤ fuel → split_from fuel s ≡ non_empty (pieces s)
unfolding non_empty
split_from-pieces zero [] h = rw (split_from-nil 0, pieces-Free [] tt)
split_from-pieces zero (c ∷ s) h = absurd (omega arith)
split_from-pieces (suc fuel) [] h = rw (split_from-nil (suc fuel), pieces-Free [] tt)
split_from-pieces (suc fuel) (c ∷ s) h = elim (ℕ_discrete c b'/') [
  | yes e ↦
      rw e
        (split_from-slash fuel s ∙ split_from-pieces fuel s (omega arith) ∙ sym (non_empty-slash s))
  | no e ↦ elim (cut s) [
    | whole k ↦ split_from-last fuel c s (e, k) ∙ sym (ap non_empty (pieces-Free (c ∷ s) (e, k)))
    | at p t k q ↦
        let short : length (b'/' ∷ t) ≤ fuel =
          omega (arith, ap length q, length-append p (b'/' ∷ t)) in
        rw q (
          split_from-word fuel c p t (e, k)
          ∙ ap (◌∷◌ (c ∷ p)) (split_from-pieces fuel (b'/' ∷ t) short)
          ∙ sym (non_empty-word c p t (e, k)))
  ]
]

-- The segments of a path that begins with a slash are the non-empty pieces between slashes; any
-- other path has none.
pub split_path-pieces :
    (c : ℕ) (s : Text) → split_path (c ∷ s) ≡ (if c == b'/' then non_empty (pieces s) else [])
unfolding split_path
split_path-pieces c s = elim (ℕ_discrete c b'/') [
  | yes e ↦ rw e (split_from-pieces (length (c ∷ s)) (b'/' ∷ s) (omega arith) ∙ non_empty-slash s)
  | no e ↦ ground (arith, e)
]
