-- ===== src/Routing/Tests.antt =====
-- Runs of src/routing/route_snapshot.cpp on requests to a small configuration.
use net.Base.{
  ℕ, ◌<◌, ◌≤◌, ◌≡◌, ◌≢◌, refl, sym, subst, ◌↔◌, ◌⊎◌, Text, codes, to_string, Free, List, [], ◌∷◌,
  ◌++◌, Bool, true, false, some, none, ℤ, pos, All, arith,
}
use net.Routing.{RouteRule, RouteTarget, FailReason, path_mismatch, client_ip_denied}
use net.Routing.Cidr.{ip_in_cidr}
use net.Routing.Cidr.Octets.{dotted}
use net.Routing.Cidr.Networks.{in_slash16_iff}
use net.Routing.Host.{host_matches, IsWildcardFor, host_matches_iff}
use net.Routing.Segments.{split_path, pieces, non_empty, split_path-pieces}
use net.Routing.Sorting.{by_insertion}
use net.Routing.Trie.{build_trie, empty_node, sort_rules, find_longest_prefix_rules, walk}
use net.Routing.Snapshot.{RouteSnapshot, new_snapshot, add_rule, finalize, match}
use net.Routing.Snapshot.Candidates.{IsCandidates, finalize-IsCandidates}
use net.Routing.Snapshot.Order.{IsUnambiguous, match_order}
use mathlib.Core.List.{Mem, mem-cons, not-mem-nil}
use mathlib.Core.List.Perm
use mathlib.Core.Logic.Or

abbrev rule : Text → Text → List Text → Text → ℤ → RouteRule
rule host path cidrs cluster priority = record {
  host_pattern = host;
  path_prefix = path;
  allowed_client_cidrs = cidrs;
  target = record { cluster_name = cluster; path_rewrite = [] };
  priority = priority;
}

abbrev proxy : RouteRule
proxy = rule (codes "*") (codes "/proxy/mock") [] (codes "mock-upstream") (pos 10)

abbrev root_rule : RouteRule
root_rule = rule (codes "*") (codes "/") [] (codes "root-service") (pos 100)

abbrev internal : RouteRule
internal =
    rule (codes "*.example.com") (codes "/proxy//mock/") (codes "10.1.0.0/16" ∷ [])
      (codes "internal") (pos 5)

abbrev closed_rule : RouteRule
closed_rule = rule (codes "*") (codes "/admin") (codes "10.0.0.0/8" ∷ []) (codes "admin") (pos 1)

abbrev snapshot : RouteSnapshot
snapshot =
    add_rule closed_rule (add_rule internal (add_rule root_rule (add_rule proxy new_snapshot)))

abbrev cluster : Text → Text → Text → Text
cluster host path client_ip =
    (match (finalize by_insertion snapshot) host path client_ip).target.cluster_name

abbrev reason : Text → Text → Text → FailReason
reason host path client_ip =
    (match (finalize by_insertion snapshot) host path client_ip).fail_reason

default_route :
    cluster (codes "localhost") (codes "/proxy/mock/a") (codes "127.0.0.1") ≡ codes "mock-upstream"
unfolding match finalize add_rule find_longest_prefix_rules split_path net.Routing.Trie.find_child
    sort_rules build_trie net.Routing.Trie.add_to_trie net.Base.text_eq
    net.Routing.Trie.update_child net.Base.find host_matches net.Base.starts_with net.Base.ends_with
    net.Routing.Snapshot.ip_allowed
default_route = refl

smallest_priority_first :
    cluster (codes "a.example.com") (codes "/proxy/mock") (codes "10.1.2.3") ≡ codes "internal"
unfolding match finalize add_rule find_longest_prefix_rules split_path net.Routing.Trie.find_child
    sort_rules build_trie net.Routing.Trie.add_to_trie net.Base.text_eq
    net.Routing.Trie.update_child net.Base.find host_matches net.Base.starts_with net.Base.ends_with
    net.Routing.Snapshot.ip_allowed ip_in_cidr net.Routing.Cidr.in_prefix
    net.Routing.Cidr.second_dot
smallest_priority_first = refl

second_octet_prefix :
    cluster (codes "a.example.com") (codes "/proxy/mock") (codes "10.12.2.3") ≡ codes "internal"
unfolding match finalize add_rule find_longest_prefix_rules split_path net.Routing.Trie.find_child
    sort_rules build_trie net.Routing.Trie.add_to_trie net.Base.text_eq
    net.Routing.Trie.update_child net.Base.find host_matches net.Base.starts_with net.Base.ends_with
    net.Routing.Snapshot.ip_allowed ip_in_cidr net.Routing.Cidr.in_prefix
    net.Routing.Cidr.second_dot
second_octet_prefix = refl

denied : reason (codes "localhost") (codes "/admin/x") (codes "11.0.0.1") ≡ client_ip_denied
unfolding match finalize add_rule find_longest_prefix_rules split_path net.Routing.Trie.find_child
    sort_rules build_trie net.Routing.Trie.add_to_trie net.Base.text_eq
    net.Routing.Trie.update_child net.Base.find host_matches net.Routing.Snapshot.ip_allowed
    ip_in_cidr net.Routing.Cidr.in_prefix net.Routing.Cidr.in_wide_prefix
denied = refl

unknown_path : reason (codes "localhost") (codes "/none") (codes "11.0.0.1") ≡ path_mismatch
unfolding match finalize add_rule find_longest_prefix_rules split_path net.Routing.Trie.find_child
    sort_rules build_trie net.Routing.Trie.add_to_trie net.Base.text_eq
    net.Routing.Trie.update_child net.Base.find
unknown_path = refl

no_leading_slash :
    cluster (codes "localhost") (codes "admin") (codes "11.0.0.1") ≡ codes "root-service"
unfolding match finalize add_rule find_longest_prefix_rules split_path sort_rules build_trie
    net.Routing.Trie.add_to_trie net.Base.text_eq host_matches net.Routing.Snapshot.ip_allowed
no_leading_slash = refl

in_slash16_iff_example :
    (ip_in_cidr (dotted 10 12 3 4) (dotted 10 1 0 0 ++ codes "/16") ≡ true)
    ↔ ((◌≡◌ {A = ℕ} 10 10) × ((more : Text) × (to_string 12 ≡ to_string 1 ++ more)))
in_slash16_iff_example = in_slash16_iff 10 12 3 4 10 1 0 0

host_matches_iff_example :
    (host_matches (codes "evilexample.com") (codes "*.example.com") ≡ true) ↔ (
      (codes "*.example.com" ≡ codes "*")
      ⊎ IsWildcardFor (codes "evilexample.com") (codes "*.example.com")
      ⊎ (codes "evilexample.com" ≡ codes "*.example.com"))
host_matches_iff_example = host_matches_iff (codes "evilexample.com") (codes "*.example.com")

split_path-pieces_example : split_path (codes "/a//b/") ≡ non_empty (pieces (codes "a//b/"))
split_path-pieces_example = split_path-pieces b'/' (codes "a//b/")

finalize-IsCandidates_example :
    IsCandidates by_insertion snapshot.rules
      (split_path (codes "/proxy/mock/x"))
      (find_longest_prefix_rules (finalize by_insertion snapshot).root (codes "/proxy/mock/x"))
finalize-IsCandidates_example = finalize-IsCandidates by_insertion snapshot (codes "/proxy/mock/x")

-- Two rules of one prefix, added in either order.
abbrev proxy_first : RouteSnapshot
proxy_first = record { rules = proxy ∷ internal ∷ []; root = none }

abbrev internal_first : RouteSnapshot
internal_first = record { rules = internal ∷ proxy ∷ []; root = none }

RouteRule-set : IsSet RouteRule
RouteRule-set = hlevel

Mem-either :
    {a : RouteRule} (P : RouteRule → Type 0)
    → IsProp (P a)
    → P proxy
    → P internal
    → Mem a proxy_first.rules
    → P a
Mem-either P prop p q m =
    Or.elim prop (mem-cons.0 m) (λ e. subst P (sym e) p)
      (λ n. Or.elim prop (mem-cons.0 n) (λ e. subst P (sym e) q) (λ z. absurd (not-mem-nil z)))

proxy_first-IsUnambiguous : IsUnambiguous proxy_first.rules
proxy_first-IsUnambiguous a b a_in b_in segs =
    Mem-either (λ x. x.priority ≡ b.priority → x ≡ b) (hlevel)
      (Mem-either (λ y. pos 10 ≡ y.priority → proxy ≡ y) (hlevel) (λ e. refl) (λ e. cc) b_in)
      (Mem-either (λ y. pos 5 ≡ y.priority → internal ≡ y) (hlevel) (λ e. cc) (λ e. refl) b_in) a_in

match_order_example :
    match
      (finalize by_insertion proxy_first)
      (codes "a.example.com")
      (codes "/proxy/mock")
      (codes "10.1.2.3")
    ≡ match
        (finalize by_insertion internal_first)
        (codes "a.example.com")
        (codes "/proxy/mock")
        (codes "10.1.2.3")
match_order_example =
    match_order by_insertion by_insertion proxy_first internal_first (codes "a.example.com")
      (codes "/proxy/mock") (codes "10.1.2.3") (Perm.swap internal proxy [])
      proxy_first-IsUnambiguous
