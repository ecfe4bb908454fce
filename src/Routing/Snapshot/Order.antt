-- ===== src/Routing/Snapshot/Order.antt =====
-- The order of `add_rule`, and the order in which `std::sort` leaves equal priorities.
mod Sorted
use net.Base.{
  ℕ, Text, List, [], ◌∷◌, Bool, true, false, ◌≡◌, ◌≢◌, refl, sym, ap, ◌∙◌, subst, subst₂, fun_ext,
  arith, All, keep, ◌≤ℤ◌, Bool-cases, le_antisymm, inl, inr, take, dec_lt, ◌<◌,
}
use net.Routing.{RouteRule, FailReason}
use net.Routing.Segments.{split_path}
use net.Routing.Trie.{StdSort, IsSorted, find_longest_prefix_rules}
use net.Routing.Trie.Contents.{rule_segments, rules_for, segs_eq, segs_eq_iff}
use net.Routing.Trie.Walk.{IsLongest, no_prefix, prefix}
use net.Routing.Snapshot.{RouteSnapshot, finalize, match, match_rules}
use net.Routing.Snapshot.Candidates.{IsCandidates, at_root, below_root, finalize-IsCandidates}
use mathlib.Core.List.{
  Perm, Mem, mem-cons, mem-cons_self, mem-cons_of_mem, not-mem-nil, Mem-prop, perm-cons,
}
use mathlib.Core.List.Perm
use mathlib.Core.List.Permᴰ
use mathlib.Core.List.Permᴰ.{Permᴰ}
use mathlib.Core.Logic.Or
use mathlib.Core.Logic.{∥∥₁_map}
use mathlib.Core.Bool.{Bool-set}
use native.Mathlib.Bridge.{le_prop}
use net.Routing.Snapshot.Order.Sorted.{
  Injective, keep-perm, sorted_unique, mem_of_mem-keep, kept_of_mem,
}

-- Two rules that are filed under one prefix with one priority are one rule.
abbrev pub IsUnambiguous : List RouteRule → Type 0
IsUnambiguous rs =
    (a b : RouteRule)
    → Mem a rs
    → Mem b rs
    → rule_segments a ≡ rule_segments b
    → a.priority ≡ b.priority
    → a ≡ b

IsLongest-unique :
    (at : List Text → List RouteRule) (ss : List Text) (xs ys : List RouteRule)
    → IsLongest at ss xs
    → IsLongest at ss ys
    → xs ≡ ys
IsLongest-unique at ss xs ys (no_prefix e h) (no_prefix f k) = e ∙ sym f
IsLongest-unique at ss xs ys (no_prefix e h) (prefix n p q same has k) =
    absurd (has (same ∙ h n p q))
IsLongest-unique at ss xs ys (prefix n p q same has k) (no_prefix e h) =
    absurd (has (same ∙ h n p q))
IsLongest-unique at ss xs ys (prefix m p q e has h) (prefix n r s f has' k) = elim (dec_lt m n) [
  | yes lt ↦ absurd (has' (f ∙ h n lt s))
  | no ge ↦ elim (dec_lt n m) [
    | yes gt ↦ absurd (has (e ∙ k m gt q))
    | no le ↦ let n_eq : m ≡ n = omega arith in e ∙ ap (λ i. at (take i ss)) n_eq ∙ sym f
  ]
]

module _ (std std' : StdSort) (rs rs' : List RouteRule) (same : Perm rs rs')
    (clear : IsUnambiguous rs) where
  sorted_rules_for : (p : List Text) → std.sort (rules_for p rs) ≡ std'.sort (rules_for p rs')
  unfolding rules_for
  sorted_rules_for p =
      sorted_unique _ _ (std.sort-IsSorted _) (std'.sort-IsSorted _)
        (Perm.trans (std.sort-perm _)
          (Perm.trans (keep-perm _ same) (Perm.symm (std'.sort-perm _))))
        one_rule
    where
      here : {x : RouteRule} → Mem x (std.sort (rules_for p rs)) → Mem x (rules_for p rs)
      here m = (Perm.mem_iff (std.sort-perm (rules_for p rs))).0 m

      filed : {x : RouteRule} → Mem x (std.sort (rules_for p rs)) → rule_segments x ≡ p
      filed m = (segs_eq_iff _ _).0 (kept_of_mem _ rs (here m))

      one_rule : Injective (std.sort (rules_for p rs))
      one_rule a b a_in b_in e =
          clear a b (mem_of_mem-keep _ rs (here a_in)) (mem_of_mem-keep _ rs (here b_in))
            (filed a_in ∙ sym (filed b_in)) e

  IsCandidates-unique :
      (segs : List Text) (xs ys : List RouteRule)
      → IsCandidates std rs segs xs
      → IsCandidates std' rs' segs ys
      → xs ≡ ys
  IsCandidates-unique segs xs ys (at_root e h) (at_root f k) = h ∙ sorted_rules_for [] ∙ sym k
  IsCandidates-unique segs xs ys (at_root e h) (below_root f k) = absurd (f e)
  IsCandidates-unique segs xs ys (below_root e h) (at_root f k) = absurd (e f)
  IsCandidates-unique segs xs ys (below_root e h) (below_root f k) =
      IsLongest-unique _ segs xs ys
        (subst (λ at. IsLongest at segs xs) (fun_ext sorted_rules_for) h) k

-- If no two different rules have one prefix and one priority, then neither the order in which rules
-- are added nor the order in which the sort leaves equal priorities shows: two snapshots with the
-- same rules, in any order and sorted by any sort that does what is asked of it, answer every
-- request alike, the reason of a refusal included.
pub match_order :
    (std std' : StdSort) (s s' : RouteSnapshot) (host path client_ip : Text)
    → Perm s.rules s'.rules
    → IsUnambiguous s.rules
    → match (finalize std s) host path client_ip ≡ match (finalize std' s') host path client_ip
unfolding match
match_order std std' s s' host path client_ip same clear =
    ap (λ cs. match_rules host client_ip cs FailReason.none)
      (IsCandidates-unique std std' s.rules s'.rules same clear (split_path path) _ _
        (finalize-IsCandidates std s path) (finalize-IsCandidates std' s' path))
