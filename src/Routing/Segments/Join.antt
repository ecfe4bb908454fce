-- ===== src/Routing/Segments/Join.antt =====
-- Paths and their segments: joining and splitting.
use net.Base.{ℕ, ◌≡◌, refl, ap, ◌≢◌, Text, List, [], ◌∷◌, ◌++◌, ◌∙◌, append-nil, arith, Free, All}
use net.Routing.Segments.{
  split_path, pieces, add_first, non_empty, split_path-nil, split_path-pieces, pieces-Free,
  pieces-append,
}

-- What `split_path` returns: no segment is empty or holds a slash.
abbrev pub IsSegment : Text → Type 0
IsSegment s = (s ≢ []) × Free b'/' s

-- The path of a list of segments.
unfoldable pub join : List Text → Text
join [] = []
join (s ∷ ss) = (b'/' ∷ s) ++ join ss

non_empty-join :
    (s : Text) (ss : List Text)
    → Free b'/' s
    → All IsSegment ss
    → non_empty (pieces (s ++ join ss)) ≡ non_empty (s ∷ ss)
unfolding non_empty join
non_empty-join s [] f h = rw (append-nil s) (ap non_empty (pieces-Free s f))
non_empty-join s (t ∷ ss) f (g, h) =
    rw (pieces-append s (t ++ join ss) f) (ground (arith, non_empty-join t ss g.1 h))

non_empty-All : (ss : List Text) → All IsSegment ss → non_empty ss ≡ ss
unfolding non_empty
non_empty-All [] h = refl
non_empty-All ([] ∷ ss) h = absurd (h.0.0 refl)
non_empty-All ((c ∷ s) ∷ ss) h = ap (◌∷◌ (c ∷ s)) (non_empty-All ss h.1)

-- Splitting undoes joining, for segments that are not empty and hold no slash.
pub split_path-join : (ss : List Text) → All IsSegment ss → split_path (join ss) ≡ ss
unfolding join
split_path-join [] h = split_path-nil
split_path-join (s ∷ ss) h =
    split_path-pieces b'/' (s ++ join ss) ∙ non_empty-join s ss h.0.1 h.1 ∙ non_empty-All (s ∷ ss) h

add_first-Free :
    (c : ℕ) (ps : List Text) → c ≢ b'/' → All (Free b'/') ps → All (Free b'/') (add_first c ps)
unfolding add_first
add_first-Free c [] h k = ((h, tt), tt)
add_first-Free c (p ∷ ps) h k = ((h, k.0), k.1)

pieces-Free-All : (s : Text) → All (Free b'/') (pieces s)
unfolding pieces
pieces-Free-All [] = (tt, tt)
pieces-Free-All (c ∷ s) = ground (arith, pieces-Free-All s, add_first-Free c (pieces s))

non_empty-IsSegment : (ps : List Text) → All (Free b'/') ps → All IsSegment (non_empty ps)
unfolding non_empty
non_empty-IsSegment [] h = tt
non_empty-IsSegment ([] ∷ ps) h = non_empty-IsSegment ps h.1
non_empty-IsSegment ((c ∷ p) ∷ ps) h = ((λ e. cc, h.0), non_empty-IsSegment ps h.1)

-- No segment is empty or holds a slash, whatever the path.
pub split_path-IsSegment : (s : Text) → All IsSegment (split_path s)
split_path-IsSegment [] = rw split_path-nil tt
split_path-IsSegment (c ∷ s) =
    rw (split_path-pieces c s) (ground (arith, non_empty-IsSegment (pieces s) (pieces-Free-All s)))

-- However many slashes a path has in a row or at its end, it stands for the join of its segments.
pub split_path-join-split_path : (s : Text) → split_path (join (split_path s)) ≡ split_path s
split_path-join-split_path s = split_path-join (split_path s) (split_path-IsSegment s)
