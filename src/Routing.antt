-- ===== src/Routing.antt =====
-- include/netp2/routing/route_snapshot.h: rules, targets and the outcome of a match.
pub mod Cidr
pub mod Host
pub mod Segments
pub mod Trie
pub mod Snapshot
pub mod Sorting
mod Tests
use net.Base.{Text, List, Bool, ℤ}

pub record RouteTarget : Type 0 where
  pub cluster_name : Text
  pub path_rewrite : Text

pub record RouteRule : Type 0 where
  pub host_pattern : Text
  pub path_prefix : Text
  pub allowed_client_cidrs : List Text
  pub target : RouteTarget
  pub priority : ℤ

pub data FailReason : Type 0 where
  none host_mismatch path_mismatch client_ip_denied : FailReason

pub record RouteMatch : Type 0 where
  pub matched : Bool
  pub target : RouteTarget
  pub matched_rule_id : Text
  pub fail_reason : FailReason
