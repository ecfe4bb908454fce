-- ===== src/Routing/Snapshot/Matching.antt =====
-- What `match` returns, on every branch.
use net.Base.{Text, List, [], ◌∷◌, ◌++◌, Bool, true, false, ◌&&◌, if◌then◌else◌, ◌≡◌, All, ◌≤ℤ◌}
use net.Routing.{RouteRule, RouteMatch, FailReason, host_mismatch, client_ip_denied}
use net.Routing.Host.{host_matches}
use net.Routing.Snapshot.{ip_allowed, unmatched, match_of}

module _ (host client_ip : Text) where
  -- Whether a rule takes the request, and why not.
  abbrev pub accepts : RouteRule → Bool
  accepts r = host_matches host r.host_pattern && ip_allowed client_ip r

  abbrev pub refusal : RouteRule → FailReason
  refusal r = if host_matches host r.host_pattern then client_ip_denied else host_mismatch

  -- The refusal of the last candidate.
  abbrev pub last_refusal : FailReason → List RouteRule → FailReason
  last_refusal reason [] = reason
  last_refusal reason (r ∷ rs) = last_refusal (refusal r) rs

  -- The outcome for a list of candidates: the first that takes the request, with no smaller priority
  -- behind it, or, if all refuse it, the refusal of the last one, a path mismatch if there is none.
  pub data Outcome (cs : List RouteRule) (reason : FailReason) (m : RouteMatch) : Type 0 where
    accepted :
        (front back : List RouteRule) (r : RouteRule)
        → cs ≡ front ++ r ∷ back
        → All (λ x. accepts x ≡ false) front
        → accepts r ≡ true
        → All (λ x. r.priority ≤ℤ x.priority) back
        → m ≡ match_of r
        → Outcome cs reason m
    refused :
        All (λ x. accepts x ≡ false) cs
        → m ≡ unmatched (last_refusal reason cs)
        → Outcome cs reason m
