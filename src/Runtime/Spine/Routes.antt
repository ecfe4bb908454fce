-- ===== src/Runtime/Spine/Routes.antt =====
-- The default routes of `RuntimeSpine`: which paths they take.
use net.Base.{
  ℕ, zero, suc, ◌≡◌, ◌≢◌, ◌↔◌, ◌⊎◌, inl, inr, refl, sym, ap, ◌∙◌, Text, codes, text_eq, text_eq_iff,
  Bool, true, false, is_empty, if◌then◌else◌, List, [], ◌∷◌, ◌++◌, Option, none, some, arith, subst,
  Bool-cases, ◌&&◌, ◌||◌, any, not, ap₂,
}
use net.Routing.{RouteRule, RouteMatch, FailReason}
use net.Routing.Host.{host_matches}
use net.Routing.Segments.{split_path}
use net.Routing.Trie.{
  StdSort, TrieNode, node, leaf, child, Children, rules, sort_rules, build_trie, empty_node,
  find_child, walk, find_longest_prefix_rules,
}
use net.Routing.Trie.Contents.{sort-nil}
use net.Routing.Snapshot.{finalize, add_rule, match, match_rules, ip_allowed}
use net.Routing.Snapshot.Matching.{accepts}
use net.Runtime.Spine.{rule_proxy, rule_root, default_snapshot}
use mathlib.Core.List.{Permᴰ}
use mathlib.Core.Logic.{∥∥₁_elim}
use mathlib.Core.Bool.{Bool-set}

-- The trie of the default routes.
abbrev default_trie : StdSort → TrieNode
default_trie std =
    node
      (child (codes "proxy")
        (node (child (codes "mock") (node leaf (std.sort (rule_proxy ∷ []))) leaf) (std.sort []))
        leaf)
      (std.sort (rule_root ∷ []))

default_snapshot-root : (std : StdSort) → (default_snapshot std).root ≡ some (default_trie std)
unfolding default_snapshot finalize sort_rules build_trie add_rule net.Routing.Trie.add_to_trie
    text_eq split_path net.Routing.Trie.update_child net.Base.find
default_snapshot-root std = refl

-- Whether any rule passes a test does not depend on the order.
any-Permᴰ : (p : RouteRule → Bool) {xs ys : List RouteRule} → Permᴰ xs ys → any p xs ≡ any p ys
any-Permᴰ p Permᴰ.nil = refl
any-Permᴰ p (Permᴰ.cons e d) = ap₂ (λ x y. p x || y) e (any-Permᴰ p d)
any-Permᴰ p (Permᴰ.swap {a} {b} {a'} {b'} {l} e f) =
    ap₂ (λ x y. p x || (p y || any p l)) e f ∙ ground arith
any-Permᴰ p (Permᴰ.trans d e) = any-Permᴰ p d ∙ any-Permᴰ p e

any-sort :
    (std : StdSort) (p : RouteRule → Bool) (xs : List RouteRule) → any p (std.sort xs) ≡ any p xs
any-sort std p xs =
    ∥∥₁_elim (std.sort-perm xs) (Bool-set (any p (std.sort xs)) (any p xs)) (λ d. any-Permᴰ p d)

-- A request is matched if any of its candidates takes it.
match_rules-any :
    (host client_ip : Text) (cs : List RouteRule) (reason : FailReason)
    → (match_rules host client_ip cs reason).matched ≡ any (accepts host client_ip) cs
unfolding match_rules
match_rules-any host client_ip [] reason = refl
match_rules-any host client_ip (r ∷ cs) reason = ground (
  arith,
  match_rules-any host client_ip cs FailReason.host_mismatch,
  match_rules-any host client_ip cs FailReason.client_ip_denied,
)

-- The paths of the default routes, by their segments.
abbrev pub has_default_route : List Text → Bool
has_default_route [] = true
has_default_route (s ∷ []) = false
has_default_route (s ∷ t ∷ ss) = text_eq (codes "proxy") s && text_eq (codes "mock") t

abbrev candidates : List Text → List RouteRule
candidates [] = rule_root ∷ []
candidates (s ∷ ss) = if has_default_route (s ∷ ss) then rule_proxy ∷ [] else []

walk-leaf :
    (ss : List Text) (rs longest : List RouteRule) → walk ss (node leaf rs) longest ≡ longest
unfolding walk find_child
walk-leaf [] rs longest = refl
walk-leaf (s ∷ ss) rs longest = refl

is_empty-any : (xs : List RouteRule) → is_empty xs ≡ not (any (λ r. true) xs)
is_empty-any [] = refl
is_empty-any (x ∷ xs) = refl

is_empty-sort : (std : StdSort) (r : RouteRule) → is_empty (std.sort (r ∷ [])) ≡ false
is_empty-sort std r = is_empty-any (std.sort (r ∷ [])) ∙ ap not (any-sort std (λ x. true) (r ∷ []))

sort_if :
    (std : StdSort) (b : Bool) (xs : List RouteRule)
    → (if b then std.sort xs else []) ≡ std.sort (if b then xs else [])
sort_if std true xs = refl
sort_if std false xs = sym (sort-nil std)

-- The default rules take any host and any client.
any_if :
    (host client_ip : Text) (b : Bool)
    → any (accepts host client_ip) (if b then rule_proxy ∷ [] else []) ≡ b
unfolding host_matches text_eq ip_allowed
any_if host client_ip true = refl
any_if host client_ip false = refl

any-candidates :
    (host client_ip : Text) (ss : List Text)
    → any (accepts host client_ip) (candidates ss) ≡ has_default_route ss
unfolding host_matches text_eq ip_allowed
any-candidates host client_ip [] = refl
any-candidates host client_ip (s ∷ ss) = any_if host client_ip (has_default_route (s ∷ ss))

module _ (std : StdSort) where
  walk-default :
      (s : Text) (ss : List Text)
      → walk (s ∷ ss) (default_trie std) []
        ≡ (if has_default_route (s ∷ ss) then std.sort (rule_proxy ∷ []) else [])
  unfolding walk find_child
  walk-default s [] = ground (arith, sort-nil std)
  walk-default s (t ∷ ss) = ground (
    arith,
    sort-nil std,
    is_empty-sort std rule_proxy,
    walk-leaf ss (std.sort (rule_proxy ∷ [])) (std.sort (rule_proxy ∷ [])),
  )

  default_candidates :
      (ss : List Text)
      → (if is_empty ss then rules (default_trie std) else walk ss (default_trie std) [])
        ≡ std.sort (candidates ss)
  default_candidates [] = refl
  default_candidates (s ∷ ss) =
      walk-default s ss ∙ sort_if std (has_default_route (s ∷ ss)) (rule_proxy ∷ [])

  -- By the routes that the constructor publishes, a request is matched exactly when its target has no
  -- segments, or its first two are "proxy" and "mock", whatever its host is and whoever its client.
  pub default_snapshot-match :
      (host path client_ip : Text)
      → (match (default_snapshot std) host path client_ip).matched
        ≡ has_default_route (split_path path)
  unfolding match find_longest_prefix_rules
  default_snapshot-match host path client_ip =
      let takes = any (accepts host client_ip) in
      let ss = split_path path in
      match_rules-any host client_ip (find_longest_prefix_rules (default_snapshot std).root path) _
      ∙ ap (λ r. takes (find_longest_prefix_rules r path)) (default_snapshot-root std)
      ∙ ap takes (default_candidates ss)
      ∙ any-sort std (accepts host client_ip) (candidates ss)
      ∙ any-candidates host client_ip ss
