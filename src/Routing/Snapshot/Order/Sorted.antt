-- ===== src/Routing/Snapshot/Order/Sorted.antt =====
-- Lists of rules up to their order: the rules that a test keeps, and sorted lists.
use net.Base.{
  List, [], ◌∷◌, Bool, true, false, ◌≡◌, refl, sym, ap, ◌∙◌, subst, subst₂, arith, All, keep, ◌≤ℤ◌,
  Bool-cases, le_antisymm, inl, inr,
}
use net.Routing.{RouteRule}
use net.Routing.Trie.{IsSorted}
use mathlib.Core.List.{
  Perm, Mem, mem-cons, mem-cons_self, mem-cons_of_mem, not-mem-nil, Mem-prop, perm-cons,
}
use mathlib.Core.List.Perm
use mathlib.Core.List.Permᴰ
use mathlib.Core.List.Permᴰ.{Permᴰ}
use mathlib.Core.Logic.Or
use mathlib.Core.Logic.{∥∥₁_map}
use mathlib.Core.Bool.{Bool-set}
use native.Mathlib.Bridge.{le_prop}

abbrev cons_if : Bool → RouteRule → List RouteRule → List RouteRule
cons_if b x xs = elim b [ true ↦ x ∷ xs | false ↦ xs ]

cons_if-PermD :
    (b : Bool) (x y : RouteRule) {xs ys : List RouteRule}
    → x ≡ y
    → Permᴰ xs ys
    → Permᴰ (cons_if b x xs) (cons_if b y ys)
cons_if-PermD true x y e h = Permᴰ.cons e h
cons_if-PermD false x y e h = h

cons_if-swap :
    (b c : Bool) (x y : RouteRule) (l : List RouteRule)
    → Permᴰ (cons_if b x (cons_if c y l)) (cons_if c y (cons_if b x l))
cons_if-swap true true x y l = Permᴰ.swap refl refl
cons_if-swap true false x y l = Permᴰ.refl (x ∷ l)
cons_if-swap false true x y l = Permᴰ.refl (y ∷ l)
cons_if-swap false false x y l = Permᴰ.refl l

keep-PermD :
    (p : RouteRule → Bool) {xs ys : List RouteRule} → Permᴰ xs ys → Permᴰ (keep p xs) (keep p ys)
keep-PermD p Permᴰ.nil = Permᴰ.nil
keep-PermD p (Permᴰ.cons {a} {b} {l₁} {l₂} e h) =
    subst (λ c. Permᴰ (cons_if (p a) a (keep p l₁)) (cons_if c b (keep p l₂))) (ap p e)
      (cons_if-PermD (p a) a b e (keep-PermD p h))
keep-PermD p (Permᴰ.swap {a} {b} {a'} {b'} {l} e f) =
    subst₂ (λ x y. Permᴰ (keep p (a ∷ b ∷ l)) (keep p (x ∷ y ∷ l))) f e
      (cons_if-swap (p a) (p b) a b (keep p l))
keep-PermD p (Permᴰ.trans h k) = Permᴰ.trans (keep-PermD p h) (keep-PermD p k)

pub keep-perm :
    (p : RouteRule → Bool) {xs ys : List RouteRule} → Perm xs ys → Perm (keep p xs) (keep p ys)
keep-perm p h = ∥∥₁_map h (keep-PermD p)

All-mem :
    (a : RouteRule) (xs : List RouteRule) {x : RouteRule}
    → All (λ s. a.priority ≤ℤ s.priority) xs
    → Mem x xs
    → a.priority ≤ℤ x.priority
All-mem a [] h m = absurd (not-mem-nil m)
All-mem a (y ∷ xs) h m = Or.elim le_prop (mem-cons.0 m) (λ e. rw e h.0) (All-mem a xs h.1)

-- Rules of one prefix and one priority are one rule.
abbrev pub Injective : List RouteRule → Type 0
Injective xs = (a b : RouteRule) → Mem a xs → Mem b xs → a.priority ≡ b.priority → a ≡ b

pub sorted_unique :
    (xs ys : List RouteRule) → IsSorted xs → IsSorted ys → Perm xs ys → Injective xs → xs ≡ ys
sorted_unique [] ys h k p inj = sym (Perm.eq-nil (Perm.symm p))
sorted_unique (x ∷ xs) [] h k p inj = Perm.eq-nil p
sorted_unique (x ∷ xs) (y ∷ ys) h k p inj =
    subst (λ z. (x ∷ xs) ≡ z ∷ ys) first (ap (◌∷◌ x) (sorted_unique xs ys h.1 k.1 rest tail))
  where
    y_in : Mem y (x ∷ xs)
    y_in = (Perm.mem_iff p).1 mem-cons_self

    x_in : Mem x (y ∷ ys)
    x_in = (Perm.mem_iff p).0 mem-cons_self

    first : x ≡ y
    first = inj x y mem-cons_self y_in (
        le_antisymm x.priority y.priority (All-mem x (x ∷ xs) (omega arith, h.0) y_in)
          (All-mem y (y ∷ ys) (omega arith, k.0) x_in))

    rest : Perm xs ys
    rest = (perm-cons x).0 (subst (λ z. Perm (x ∷ xs) (z ∷ ys)) (sym first) p)

    tail : Injective xs
    tail a b a_in b_in = inj a b (mem-cons_of_mem x a_in) (mem-cons_of_mem x b_in)

pub mem_of_mem-keep :
    (p : RouteRule → Bool) (xs : List RouteRule) {x : RouteRule} → Mem x (keep p xs) → Mem x xs
mem_of_mem-keep p [] m = m
mem_of_mem-keep p (y ∷ xs) m = elim (Bool-cases (p y)) [
  | inl kept ↦
      Or.elim Mem-prop (mem-cons.0 (rw (kept, keep) at m)) (λ e. mem-cons.1 (Or.inl e))
        (λ r. mem-cons_of_mem y (mem_of_mem-keep p xs r))
  | inr dropped ↦ mem-cons_of_mem y (mem_of_mem-keep p xs (rw (dropped, keep) at m))
]

pub kept_of_mem :
    (p : RouteRule → Bool) (xs : List RouteRule) {x : RouteRule} → Mem x (keep p xs) → p x ≡ true
kept_of_mem p [] m = absurd (not-mem-nil m)
kept_of_mem p (y ∷ xs) m = elim (Bool-cases (p y)) [
  | inl kept ↦
      Or.elim (Bool-set _ _) (mem-cons.0 (rw (kept, keep) at m)) (λ e. ap p e ∙ kept)
        (λ r. kept_of_mem p xs r)
  | inr dropped ↦ kept_of_mem p xs (rw (dropped, keep) at m)
]
