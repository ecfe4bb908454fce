-- ===== src/Routing/Sorting.antt =====
-- A sort that does what `StdSort` asks of `std::sort`: insertion by priority. The tests run with it.
use net.Base.{List, [], ◌∷◌, ltb_ℤ, ◌≤ℤ◌, if◌then◌else◌, arith, All, Bool-cases, inl, inr}
use net.Routing.{RouteRule}
use net.Routing.Trie.{StdSort, IsSorted}
use mathlib.Core.List.{Perm}
use mathlib.Core.List.Perm

abbrev pub insert : RouteRule → List RouteRule → List RouteRule
insert r [] = r ∷ []
insert r (x ∷ xs) =
    let rest = insert r xs in if ltb_ℤ x.priority r.priority then x ∷ rest else r ∷ x ∷ xs

abbrev pub insertion_sort : List RouteRule → List RouteRule
insertion_sort [] = []
insertion_sort (r ∷ rs) = insert r (insertion_sort rs)

insert-perm : (r : RouteRule) (xs : List RouteRule) → Perm (insert r xs) (r ∷ xs)
insert-perm r [] = Perm.refl (r ∷ [])
insert-perm r (x ∷ xs) = elim (Bool-cases (ltb_ℤ x.priority r.priority)) [
  | inl behind ↦ rw behind (Perm.trans (Perm.cons x (insert-perm r xs)) (Perm.swap r x xs))
  | inr before ↦ rw before (Perm.refl (r ∷ x ∷ xs))
]

pub insertion_sort-perm : (rs : List RouteRule) → Perm (insertion_sort rs) rs
insertion_sort-perm [] = Perm.refl []
insertion_sort-perm (r ∷ rs) =
    Perm.trans (insert-perm r (insertion_sort rs)) (Perm.cons r (insertion_sort-perm rs))

-- A lower bound of a list and of what is inserted bounds the result.
insert-All :
    (a r : RouteRule) (xs : List RouteRule)
    → a.priority ≤ℤ r.priority
    → All (λ s. a.priority ≤ℤ s.priority) xs
    → All (λ s. a.priority ≤ℤ s.priority) (insert r xs)
insert-All a r [] h k = (h, tt)
insert-All a r (x ∷ xs) h k = elim (Bool-cases (ltb_ℤ x.priority r.priority)) [
  | inl behind ↦ rw behind (k.0, insert-All a r xs h k.1)
  | inr before ↦ rw before (h, k)
]

All-le :
    (a b : RouteRule) (xs : List RouteRule)
    → a.priority ≤ℤ b.priority
    → All (λ s. b.priority ≤ℤ s.priority) xs
    → All (λ s. a.priority ≤ℤ s.priority) xs
All-le a b [] h k = tt
All-le a b (x ∷ xs) h k = (omega (arith, k.0), All-le a b xs h k.1)

insert-IsSorted : (r : RouteRule) (xs : List RouteRule) → IsSorted xs → IsSorted (insert r xs)
insert-IsSorted r [] h = (tt, tt)
insert-IsSorted r (x ∷ xs) h = elim (Bool-cases (ltb_ℤ x.priority r.priority)) [
  | inl behind ↦
      rw behind (insert-All x r xs (ground (arith, behind)) h.0, insert-IsSorted r xs h.1)
  | inr before ↦
      let le : r.priority ≤ℤ x.priority = ground (arith, before) in
      rw before ((le, All-le r x xs le h.0), h)
]

pub insertion_sort-IsSorted : (rs : List RouteRule) → IsSorted (insertion_sort rs)
insertion_sort-IsSorted [] = tt
insertion_sort-IsSorted (r ∷ rs) =
    insert-IsSorted r (insertion_sort rs) (insertion_sort-IsSorted rs)

abbrev pub by_insertion : StdSort
by_insertion = record {
  sort = insertion_sort;
  sort-perm = insertion_sort-perm;
  sort-IsSorted = insertion_sort-IsSorted;
}
