-- ===== src/Base/Lists.antt =====
-- Lists measured and indexed by native numbers, and predicates on their entries.
use Prim.Native.Nat.{ℕ, zero, suc, ◌+◌, ◌≤◌, ◌<◌}
use mathlib.Core.Path.{◌≡◌, refl, ap, subst}
use mathlib.Core.Logic.{◌≢◌}
use mathlib.Core.Bool.{Bool, true, false, ◌||◌}
use mathlib.Core.List.{List, [], ◌∷◌, ◌++◌}
use mathlib.Core.Option.{Option, none, some}
use native.Mathlib.Omega.{arith}
use native.Mathlib.Decide.{dec_lt}

module _ {ℓ} {A : Type ℓ} where
  abbrev pub length : List A → ℕ
  length [] = 0
  length (x ∷ xs) = suc (length xs)

  abbrev pub get_elem? : List A → ℕ → Option A
  get_elem? [] i = none
  get_elem? (x ∷ xs) zero = some x
  get_elem? (x ∷ xs) (suc i) = get_elem? xs i

  -- A write out of bounds changes nothing.
  abbrev pub set : List A → ℕ → A → List A
  set [] i v = []
  set (x ∷ xs) zero v = v ∷ xs
  set (x ∷ xs) (suc i) v = x ∷ set xs i v

  -- Without the entry at an index.
  abbrev pub erase : List A → ℕ → List A
  erase [] i = []
  erase (x ∷ xs) zero = xs
  erase (x ∷ xs) (suc i) = x ∷ erase xs i

  abbrev pub take : ℕ → List A → List A
  take zero xs = []
  take (suc n) [] = []
  take (suc n) (x ∷ xs) = x ∷ take n xs

  abbrev pub drop : ℕ → List A → List A
  drop zero xs = xs
  drop (suc n) [] = []
  drop (suc n) (x ∷ xs) = drop n xs

  abbrev pub is_empty : List A → Bool
  is_empty [] = true
  is_empty (x ∷ xs) = false

  abbrev pub any : (A → Bool) → List A → Bool
  any p [] = false
  any p (x ∷ xs) = p x || any p xs

  -- The entries that a test keeps, in order.
  abbrev pub keep : (A → Bool) → List A → List A
  keep p [] = []
  keep p (x ∷ xs) = let rest = keep p xs in elim (p x) [ true ↦ x ∷ rest | false ↦ rest ]

  pub length-append : (xs ys : List A) → length (xs ++ ys) ≡ length xs + length ys
  length-append [] ys = omega arith
  length-append (x ∷ xs) ys = omega (arith, length-append xs ys)

  pub length-set : (xs : List A) (i : ℕ) (v : A) → length (set xs i v) ≡ length xs
  length-set [] i v = refl
  length-set (x ∷ xs) zero v = refl
  length-set (x ∷ xs) (suc i) v = ap suc (length-set xs i v)

  pub drop-get_elem? :
      (xs : List A) (i : ℕ) (x : A) → get_elem? xs i ≡ some x → drop i xs ≡ x ∷ drop (suc i) xs
  drop-get_elem? [] i x h = cc
  drop-get_elem? (y ∷ xs) zero x h = cc
  drop-get_elem? (y ∷ xs) (suc i) x h = drop-get_elem? xs i x h

  pub take-append_left : (xs ys : List A) → take (length xs) (xs ++ ys) ≡ xs
  take-append_left [] ys = refl
  take-append_left (x ∷ xs) ys = ap (◌∷◌ x) (take-append_left xs ys)

  pub drop-append_left : (xs ys : List A) → drop (length xs) (xs ++ ys) ≡ ys
  drop-append_left [] ys = refl
  drop-append_left (x ∷ xs) ys = drop-append_left xs ys

  pub take_all : (xs : List A) → take (length xs) xs ≡ xs
  take_all [] = refl
  take_all (x ∷ xs) = ap (◌∷◌ x) (take_all xs)

  pub drop_all : (xs : List A) → drop (length xs) xs ≡ []
  drop_all [] = refl
  drop_all (x ∷ xs) = drop_all xs

  pub take-append-drop : (n : ℕ) (xs : List A) → take n xs ++ drop n xs ≡ xs
  take-append-drop zero xs = refl
  take-append-drop (suc n) [] = refl
  take-append-drop (suc n) (x ∷ xs) = ap (◌∷◌ x) (take-append-drop n xs)

module _ {ℓ κ} {A : Type ℓ} (P : A → Type κ) where
  abbrev pub All : List A → Type κ
  All [] = Unit
  All (x ∷ xs) = P x × All xs

  pub All-append : (xs ys : List A) → All xs → All ys → All (xs ++ ys)
  All-append [] ys h k = k
  All-append (x ∷ xs) ys (p, h) k = (p, All-append xs ys h k)

module _ {ℓ} {A : Type ℓ} where
  -- The sum of a weight over a list.
  unfoldable pub total : (A → ℕ) → List A → ℕ
  total w [] = 0
  total w (x ∷ xs) = w x + total w xs

  pub total-append : (w : A → ℕ) (xs ys : List A) → total w (xs ++ ys) ≡ total w xs + total w ys
  unfolding total
  total-append w [] ys = omega arith
  total-append w (x ∷ xs) ys = omega (arith, total-append w xs ys)

  pub total-set :
      (w : A → ℕ) (xs : List A) (i : ℕ) (x y : A)
      → get_elem? xs i ≡ some x
      → total w (set xs i y) + w x ≡ total w xs + w y
  unfolding total
  total-set w [] i x y h = cc
  total-set w (z ∷ xs) zero x y h = let e : z ≡ x = cc in omega (arith, ap w e)
  total-set w (z ∷ xs) (suc i) x y h = omega (arith, total-set w xs i x y h)

  pub total-erase :
      (w : A → ℕ) (xs : List A) (i : ℕ) (x : A)
      → get_elem? xs i ≡ some x
      → total w (erase xs i) + w x ≡ total w xs
  unfolding total
  total-erase w [] i x h = cc
  total-erase w (z ∷ xs) zero x h = let e : z ≡ x = cc in omega (arith, ap w e)
  total-erase w (z ∷ xs) (suc i) x h = omega (arith, total-erase w xs i x h)

  pub le-total :
      (w : A → ℕ) (xs : List A) (i : ℕ) (x : A) → get_elem? xs i ≡ some x → w x ≤ total w xs
  unfolding total
  le-total w [] i x h = cc
  le-total w (z ∷ xs) zero x h = let e : z ≡ x = cc in omega (arith, ap w e)
  le-total w (z ∷ xs) (suc i) x h = omega (arith, le-total w xs i x h)

  pub add-le-total :
      (w : A → ℕ) (xs : List A) (i j : ℕ) (x y : A)
      → i ≢ j
      → get_elem? xs i ≡ some x
      → get_elem? xs j ≡ some y
      → w x + w y ≤ total w xs
  unfolding total
  add-le-total w [] i j x y n h k = cc
  add-le-total w (z ∷ xs) zero zero x y n h k = absurd (n refl)
  add-le-total w (z ∷ xs) zero (suc j) x y n h k =
      let e : z ≡ x = cc in omega (arith, ap w e, le-total w xs j y k)
  add-le-total w (z ∷ xs) (suc i) zero x y n h k =
      let e : z ≡ y = cc in omega (arith, ap w e, le-total w xs i x h)
  add-le-total w (z ∷ xs) (suc i) (suc j) x y n h k =
      omega (arith, add-le-total w xs i j x y (λ e. n (ap suc e)) h k)

  pub total-add : (v w : A → ℕ) (xs : List A) → total (λ x. v x + w x) xs ≡ total v xs + total w xs
  unfolding total
  total-add v w [] = omega arith
  total-add v w (x ∷ xs) = omega (arith, total-add v w xs)

  -- A sum that is not 0 has an entry that weighs something.
  pub total_pos :
      (w : A → ℕ) (xs : List A)
      → 0 < total w xs
      → (i : ℕ) × (x : A) × (get_elem? xs i ≡ some x) × (0 < w x)
  unfolding total
  total_pos w [] h = absurd (omega arith)
  total_pos w (x ∷ xs) h = elim (dec_lt 0 (w x)) [
    | yes p ↦ (0, x, refl, p)
    | no p ↦ let (i, y, found, q) = total_pos w xs (omega arith) in (suc i, y, found, q)
  ]

  pub total-of-All : (w : A → ℕ) (xs : List A) → All (λ x. w x ≡ 0) xs → total w xs ≡ 0
  unfolding total
  total-of-All w [] h = refl
  total-of-All w (x ∷ xs) (p, h) = omega (arith, p, total-of-All w xs h)

  pub set-set : (xs : List A) (i : ℕ) (x y : A) → set (set xs i x) i y ≡ set xs i y
  set-set [] i x y = refl
  set-set (z ∷ xs) zero x y = refl
  set-set (z ∷ xs) (suc i) x y = ap (◌∷◌ z) (set-set xs i x y)

module _ {ℓ κ} {A : Type ℓ} (P : A → Type κ) where
  pub All-set : (xs : List A) (i : ℕ) (y : A) → All P xs → P y → All P (set xs i y)
  All-set [] i y h p = h
  All-set (x ∷ xs) zero y (q, h) p = (p, h)
  All-set (x ∷ xs) (suc i) y (q, h) p = (q, All-set xs i y h p)

  pub All-erase : (xs : List A) (i : ℕ) → All P xs → All P (erase xs i)
  All-erase [] i h = h
  All-erase (x ∷ xs) zero (q, h) = h
  All-erase (x ∷ xs) (suc i) (q, h) = (q, All-erase xs i h)

  pub All-get_elem? : (xs : List A) (i : ℕ) (x : A) → All P xs → get_elem? xs i ≡ some x → P x
  All-get_elem? [] i x h e = cc
  All-get_elem? (z ∷ xs) zero x (p, h) e = let same : z ≡ x = cc in subst P same p
  All-get_elem? (z ∷ xs) (suc i) x (p, h) e = All-get_elem? xs i x h e

  pub All-of-total :
      (w : A → ℕ) → ((x : A) → w x ≡ 0 → P x) → (xs : List A) → total w xs ≡ 0 → All P xs
  unfolding total
  All-of-total w h [] e = tt
  All-of-total w h (x ∷ xs) e = (h x (omega arith), All-of-total w h xs (omega arith))
