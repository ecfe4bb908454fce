-- ===== src/Routing/Trie/Contents.antt =====
-- Which rules a node of the trie holds.
use net.Base.{
  Text, codes, text_eq, text_eq_iff, List, [], ◌∷◌, ◌++◌, Bool, true, false, ◌&&◌, Option, none,
  some, if◌then◌else◌, ◌≡◌, refl, sym, ap, ◌∙◌, keep, arith, append_assoc, append-nil, Bool-cases,
  Option-cases, inl, inr, ◌↔◌,
}
use net.Routing.{RouteRule}
use net.Routing.Segments.{split_path, split_path-root}
use net.Routing.Trie.{
  TrieNode, Children, node, leaf, child, rules, children, empty_node, find_child, update_child,
  push_rule, add_to_trie, build_trie, StdSort, sort_rules, sort_children,
}
use mathlib.Core.List.Perm
use mathlib.Core.Option

-- What a child that may be missing holds.
abbrev pub from_child : (TrieNode → List RouteRule) → Option TrieNode → List RouteRule
from_child f none = []
from_child f (some t) = f t

-- The rules at the end of a path of segments, [] where the trie has no such path.
unfoldable pub rules_at : List Text → TrieNode → List RouteRule
rules_at [] n = rules n
rules_at (s ∷ ss) n = from_child (rules_at ss) (find_child s (children n))

pub rules_at-child :
    (s : Text) (ss : List Text) (n : TrieNode) (o : Option TrieNode)
    → find_child s (children n) ≡ o
    → rules_at (s ∷ ss) n ≡ from_child (rules_at ss) o
unfolding rules_at
rules_at-child s ss n o e = ap (from_child (rules_at ss)) e

pub segs_eq : List Text → List Text → Bool
segs_eq [] [] = true
segs_eq (s ∷ ss) (t ∷ ts) = text_eq s t && segs_eq ss ts
segs_eq _ _ = false

pub segs_eq_iff : (ss ts : List Text) → (segs_eq ss ts ≡ true) ↔ (ss ≡ ts)
unfolding segs_eq
segs_eq_iff [] [] = ground arith
segs_eq_iff [] (t ∷ ts) = ground arith
segs_eq_iff (s ∷ ss) [] = ground arith
segs_eq_iff (s ∷ ss) (t ∷ ts) = ground (arith, segs_eq_iff ss ts, text_eq_iff s t)

abbrev or_empty : Option TrieNode → TrieNode
or_empty none = empty_node
or_empty (some t) = t

find_child-update_child :
    (s u : Text) (f : TrieNode → TrieNode) (cs : Children)
    → find_child s (update_child u f cs)
      ≡ (if text_eq u s then some (f (or_empty (find_child s cs))) else find_child s cs)
unfolding find_child update_child
find_child-update_child s u f leaf = ground arith
find_child-update_child s u f (child key t cs) =
    ground (
      arith,
      text_eq_iff key u,
      text_eq_iff key s,
      text_eq_iff u s,
      find_child-update_child s u f cs,
    )

rules_at-empty : (ss : List Text) → rules_at ss empty_node ≡ []
unfolding rules_at find_child
rules_at-empty [] = refl
rules_at-empty (s ∷ ss) = refl

-- `push_rule` appends to one list of rules and leaves the others.
rules_at-push_rule :
    (r : RouteRule) (ss ts : List Text) (n : TrieNode)
    → rules_at ss (push_rule r ts n)
      ≡ (if segs_eq ts ss then rules_at ss n ++ r ∷ [] else rules_at ss n)
unfolding rules_at push_rule segs_eq
rules_at-push_rule r [] [] (node cs rs) = refl
rules_at-push_rule r [] (t ∷ ts) (node cs rs) = refl
rules_at-push_rule r (s ∷ ss) [] (node cs rs) = refl
rules_at-push_rule r (s ∷ ss) (t ∷ ts) (node cs rs) =
    ap (from_child (rules_at ss)) (find_child-update_child s t (push_rule r ts) cs)
    ∙ ground (arith, rules_at-push_rule r ss ts (or_empty (find_child s cs)), rules_at-empty ss)

-- The segments under which `finalize` files a rule.
unfoldable pub rule_segments : RouteRule → List Text
rule_segments r = split_path r.path_prefix

add_to_trie_lem : (r : RouteRule) (n : TrieNode) → add_to_trie r n ≡ push_rule r (rule_segments r) n
unfolding add_to_trie rule_segments
add_to_trie_lem r n = elim (Bool-cases (text_eq r.path_prefix (codes "/"))) [
  | inl slash ↦ rw slash (
      ap (λ ss. push_rule r ss n)
        (sym (ap split_path ((text_eq_iff _ _).0 slash) ∙ split_path-root)))
  | inr other ↦ rw other
]

-- The rules with the given segments, in the order of `add_rule`.
unfoldable pub rules_for : List Text → List RouteRule → List RouteRule
unfolding rule_segments
rules_for ss = keep (λ r. segs_eq (rule_segments r) ss)

append_if :
    (b : Bool) (xs : List RouteRule) (r : RouteRule) (ys : List RouteRule)
    → (if b then xs ++ r ∷ [] else xs) ++ ys ≡ xs ++ elim b [ true ↦ r ∷ ys | false ↦ ys ]
append_if true xs r ys = append_assoc xs (r ∷ []) ys
append_if false xs r ys = refl

rules_at-build_trie :
    (ss : List Text) (rs : List RouteRule) (n : TrieNode)
    → rules_at ss (build_trie rs n) ≡ rules_at ss n ++ rules_for ss rs
unfolding build_trie rules_for
rules_at-build_trie ss [] n = sym (append-nil _)
rules_at-build_trie ss (r ∷ rs) n =
    rules_at-build_trie ss rs (add_to_trie r n)
    ∙ ap (λ x. x ++ rules_for ss rs)
        (ap (rules_at ss) (add_to_trie_lem r n) ∙ rules_at-push_rule r ss (rule_segments r) n)
    ∙ append_if (segs_eq (rule_segments r) ss) (rules_at ss n) r (rules_for ss rs)

module _ (std : StdSort) where
  pub sort-nil : std.sort [] ≡ []
  sort-nil = Perm.eq-nil (std.sort-perm [])

  find_child-sort_children :
      (s : Text) (cs : Children)
      → find_child s (sort_children std cs) ≡ Option.map (sort_rules std) (find_child s cs)
  unfolding find_child sort_rules
  find_child-sort_children s leaf = refl
  find_child-sort_children s (child key t cs) = ground (arith, find_child-sort_children s cs)

  rules_at-sort_rules :
      (ss : List Text) (n : TrieNode) → rules_at ss (sort_rules std n) ≡ std.sort (rules_at ss n)
  unfolding rules_at sort_rules
  rules_at-sort_rules [] (node cs rs) = refl
  rules_at-sort_rules (s ∷ ss) (node cs rs) =
      ap (from_child (rules_at ss)) (find_child-sort_children s cs)
      ∙ elim (Option-cases (find_child s cs)) [
        | inl missing ↦ rw missing (sym sort-nil)
        | inr (t, found) ↦ rw found (rules_at-sort_rules ss t)
      ]

  -- Whatever the rules, the node that `finalize` leaves at the end of a path of segments holds just
  -- the rules whose prefix has these segments, sorted.
  pub rules_at-finalized :
      (ss : List Text) (rs : List RouteRule)
      → rules_at ss (sort_rules std (build_trie rs empty_node)) ≡ std.sort (rules_for ss rs)
  rules_at-finalized ss rs =
      rules_at-sort_rules ss (build_trie rs empty_node)
      ∙ ap std.sort (
          rules_at-build_trie ss rs empty_node ∙ ap (λ x. x ++ rules_for ss rs) (rules_at-empty ss))
