-- ===== src/Routing/Snapshot/Candidates.antt =====
-- The candidates of a match, described by the rules alone.
use net.Base.{
  Text, List, [], ◌∷◌, is_empty, if◌then◌else◌, ◌≡◌, ◌≢◌, refl, sym, take, fun_ext, subst,
}
use net.Routing.{RouteRule}
use net.Routing.Segments.{split_path}
use net.Routing.Trie.{
  StdSort, IsSorted, rules, walk, find_longest_prefix_rules, sort_rules, build_trie, empty_node,
}
use net.Routing.Trie.Contents.{rules_at, rules_for, rules_at-finalized}
use net.Routing.Trie.Walk.{IsLongest, no_prefix, prefix, walk-IsLongest}
use net.Routing.Snapshot.{RouteSnapshot, finalize}

-- The candidates that the rules ask for: those of the longest prefix of the path's segments that is
-- the segments of some rule's prefix, sorted by priority. A path without segments has those of "/".
pub data IsCandidates (std : StdSort) (rs : List RouteRule) (segs : List Text) (cs : List RouteRule)
    : Type 0 where
  at_root : segs ≡ [] → cs ≡ std.sort (rules_for [] rs) → IsCandidates std rs segs cs
  below_root :
      segs ≢ [] → IsLongest (λ p. std.sort (rules_for p rs)) segs cs → IsCandidates std rs segs cs

finalized-IsLongest :
    (std : StdSort) (rs : List RouteRule) (segs : List Text)
    → IsLongest
        (λ p. std.sort (rules_for p rs))
        segs
        (walk segs (sort_rules std (build_trie rs empty_node)) [])
finalized-IsLongest std rs segs =
    subst (λ at. IsLongest at segs (walk segs (sort_rules std (build_trie rs empty_node)) []))
      (fun_ext (λ p. rules_at-finalized std p rs))
      (walk-IsLongest segs (sort_rules std (build_trie rs empty_node)))

IsCandidates-from :
    (std : StdSort) (rs : List RouteRule) (segs : List Text)
    → let root = sort_rules std (build_trie rs empty_node) in
      IsCandidates std rs segs (if is_empty segs then rules root else walk segs root [])
unfolding rules_at
IsCandidates-from std rs [] = at_root refl (rules_at-finalized std [] rs)
IsCandidates-from std rs (s ∷ ss) = below_root (λ e. cc) (finalized-IsLongest std rs (s ∷ ss))

-- After `finalize` the walk of the trie finds just the candidates that the rules ask for.
pub finalize-IsCandidates :
    (std : StdSort) (s : RouteSnapshot) (path : Text)
    → IsCandidates std s.rules
        (split_path path)
        (find_longest_prefix_rules (finalize std s).root path)
unfolding finalize find_longest_prefix_rules
finalize-IsCandidates std s path = IsCandidates-from std s.rules (split_path path)

-- Candidates come with the smallest priorities first.
pub IsCandidates-IsSorted :
    (std : StdSort) (rs : List RouteRule) (segs : List Text) (cs : List RouteRule)
    → IsCandidates std rs segs cs
    → IsSorted cs
IsCandidates-IsSorted std rs segs cs (at_root e same) =
    subst IsSorted (sym same) (std.sort-IsSorted (rules_for [] rs))
IsCandidates-IsSorted std rs segs cs (below_root e (no_prefix same h)) =
    subst IsSorted (sym same) tt
IsCandidates-IsSorted std rs segs cs (below_root e (prefix n p q same has h)) =
    subst IsSorted (sym same) (std.sort-IsSorted (rules_for (take n segs) rs))
