-- ===== src/Routing/Snapshot.antt =====
-- src/routing/route_snapshot.cpp: `RouteSnapshot::Impl`.
pub mod Candidates
pub mod Matching
pub mod Order
use net.Base.{
  Text, List, [], ◌∷◌, ◌++◌, ℕ, length, Bool, true, false, not, ◌||◌, Option, none, some, any,
  is_empty, if◌then◌else◌,
}
use net.Routing.{
  RouteRule, RouteTarget, RouteMatch, FailReason, host_mismatch, path_mismatch, client_ip_denied,
}
use net.Routing.Cidr.{ip_in_cidr}
use net.Routing.Host.{host_matches}
use net.Routing.Trie.{
  TrieNode, StdSort, empty_node, build_trie, sort_rules, find_longest_prefix_rules,
}

-- The route snapshot; `root_` is null until `finalize`.
pub record RouteSnapshot : Type 0 where
  pub rules : List RouteRule
  pub root : Option TrieNode

abbrev pub new_snapshot : RouteSnapshot
new_snapshot = record { rules = []; root = none }

unfoldable pub add_rule : RouteRule → RouteSnapshot → RouteSnapshot
add_rule rule s = record s { rules = s.rules ++ rule ∷ [] }

unfoldable pub finalize : StdSort → RouteSnapshot → RouteSnapshot
finalize std s = record s { root = some (sort_rules std (build_trie s.rules empty_node)) }

unfoldable pub rule_count : RouteSnapshot → ℕ
rule_count s = length s.rules

abbrev pub no_target : RouteTarget
no_target = record { cluster_name = []; path_rewrite = [] }

-- The client address check: no list means no restriction.
unfoldable pub ip_allowed : Text → RouteRule → Bool
ip_allowed client_ip rule =
    is_empty rule.allowed_client_cidrs || any (ip_in_cidr client_ip) rule.allowed_client_cidrs

-- What is returned when the loop ends without a match.
pub unmatched : FailReason → RouteMatch
unmatched reason = record {
  matched = false;
  target = no_target;
  matched_rule_id = [];
  fail_reason = elim reason [ FailReason.none ↦ path_mismatch | other ↦ other ];
}

pub match_of : RouteRule → RouteMatch
match_of rule = record {
  matched = true;
  target = rule.target;
  matched_rule_id = rule.host_pattern ++ rule.path_prefix;
  fail_reason = FailReason.none;
}

-- The loop over the candidates, with the `fail_reason` of the last one refused.
unfoldable pub match_rules : Text → Text → List RouteRule → FailReason → RouteMatch
unfolding unmatched match_of
match_rules host client_ip [] reason = unmatched reason
match_rules host client_ip (rule ∷ candidates) reason =
    let host_failed = match_rules host client_ip candidates host_mismatch in
    let ip_failed = match_rules host client_ip candidates client_ip_denied in
    if not (host_matches host rule.host_pattern)
    then host_failed
    else if not (ip_allowed client_ip rule)
    then ip_failed
    else match_of rule

unfoldable pub match : RouteSnapshot → Text → Text → Text → RouteMatch
unfolding match_rules
match s host path client_ip =
    match_rules host client_ip (find_longest_prefix_rules s.root path) FailReason.none
