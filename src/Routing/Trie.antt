-- ===== src/Routing/Trie.antt =====
-- src/routing/route_snapshot.cpp: the trie of path segments, how `finalize` builds it and sorts the
-- rules of its nodes, and the walk to the longest prefix. A node's rules are copies of the rules that
-- the source's nodes point to, which is what they stand for until the next `add_rule`.
pub mod Contents
pub mod Walk
use net.Base.{
  ℕ, Text, codes, text_eq, List, [], ◌∷◌, ◌++◌, Bool, true, false, ◌&&◌, Option, none, some,
  is_empty, if◌then◌else◌, ◌≡◌, ltb_ℤ, ◌≤ℤ◌, All, keep,
}
use net.Routing.{RouteRule}
use net.Routing.Segments.{split_path}
use mathlib.Core.List.{Perm}

mutual
  pub data TrieNode : Type 0 where
    node : Children → List RouteRule → TrieNode

  -- `std::map<std::string, std::unique_ptr<TrieNode>>`; a key stands in it once.
  pub data Children : Type 0 where
    leaf : Children
    child : Text → TrieNode → Children → Children

abbrev pub rules : TrieNode → List RouteRule
rules (node cs rs) = rs

abbrev pub children : TrieNode → Children
children (node cs rs) = cs

abbrev pub empty_node : TrieNode
empty_node = node leaf []

unfoldable pub find_child : Text → Children → Option TrieNode
find_child seg leaf = none
find_child seg (child key t cs) = if text_eq key seg then some t else find_child seg cs

-- `if (!children.contains(seg)) children[seg] = make_unique<TrieNode>();`, then a change of that child.
unfoldable pub update_child : Text → (TrieNode → TrieNode) → Children → Children
update_child seg f leaf = child seg (f empty_node) leaf
update_child seg f (child key t cs) =
    if text_eq key seg then child key (f t) cs else child key t (update_child seg f cs)

-- The walk of `finalize` down the segments of a rule, which ends in `rules.push_back`.
pub push_rule : RouteRule → List Text → TrieNode → TrieNode
push_rule rule [] (node cs rs) = node cs (rs ++ rule ∷ [])
push_rule rule (seg ∷ segs) (node cs rs) = node (update_child seg (push_rule rule segs) cs) rs

-- One round of the loop of `finalize`.
unfoldable pub add_to_trie : RouteRule → TrieNode → TrieNode
unfolding push_rule
add_to_trie rule root =
    if text_eq rule.path_prefix (codes "/")
    then push_rule rule [] root
    else push_rule rule (split_path rule.path_prefix) root

unfoldable pub build_trie : List RouteRule → TrieNode → TrieNode
build_trie [] root = root
build_trie (rule ∷ rs) root = build_trie rs (add_to_trie rule root)

-- `std::sort` by priority. Its order of rules that have one priority is not specified, so it is any
-- function that permutes its argument and leaves no smaller priority behind a larger one.
abbrev pub IsSorted : List RouteRule → Type 0
IsSorted [] = Unit
IsSorted (r ∷ rs) = All (λ s. r.priority ≤ℤ s.priority) rs × IsSorted rs

pub record StdSort : Type 0 where
  pub sort : List RouteRule → List RouteRule
  pub sort-perm : (rs : List RouteRule) → Perm (sort rs) rs
  pub sort-IsSorted : (rs : List RouteRule) → IsSorted (sort rs)

module _ (std : StdSort) where
  unfoldable mutual
    pub sort_rules : TrieNode → TrieNode
    sort_rules (node cs rs) = node (sort_children cs) (std.sort rs)

    pub sort_children : Children → Children
    sort_children leaf = leaf
    sort_children (child key t cs) = child key (sort_rules t) (sort_children cs)

-- The loop of `find_longest_prefix_rules`: the rules of `longest_match_node`, [] while it is null.
unfoldable pub walk : List Text → TrieNode → List RouteRule → List RouteRule
walk [] n longest = longest
walk (seg ∷ segs) n longest = elim (find_child seg (children n)) [
  | none ↦ longest
  | some next ↦ walk segs next (if is_empty (rules next) then longest else rules next)
]

unfoldable pub find_longest_prefix_rules : Option TrieNode → Text → List RouteRule
unfolding walk
find_longest_prefix_rules none path = []
find_longest_prefix_rules (some root) path =
    let segments = split_path path in
    if is_empty segments then rules root else walk segments root []
