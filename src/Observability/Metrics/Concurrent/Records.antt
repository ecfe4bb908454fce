-- ===== src/Observability/Metrics/Concurrent/Records.antt =====
-- The records of src/observability/metrics.cpp as the `fetch_add`s that they are made of.
use net.Base.{
  ℕ, zero, suc, ◌≡◌, refl, sym, ap, ◌∙◌, Bool-cases, inl, inr, ◌&&◌, leb, ltb, if◌then◌else◌, List,
  [], ◌∷◌, ◌++◌, none, some,
}
use net.Observability.Metrics.{
  WorkerMetricsShard, MetricsRegistry, on_shard, count_accept, count_request, count_response,
  count_status,
}
use net.Observability.Metrics.Totals.{
  Counter, accepts, requests, responses_2xx, responses_4xx, responses_5xx, bytes_in, bytes_out,
}
use net.Observability.Metrics.Recording.{
  Record, accept, request, response, record_event, record_event-on_shard, count,
}
use net.Observability.Metrics.Concurrent.Growth.{on_shard-suc}
use net.Observability.Metrics.Concurrent.{add_to, Addition, adds}

-- The counter of a status's class.
abbrev class_of : ℕ → List (Counter × ℕ)
class_of status_code =
    if leb 200 status_code && ltb status_code 300
    then (responses_2xx, 1) ∷ []
    else if leb 400 status_code && ltb status_code 500
    then (responses_4xx, 1) ∷ []
    else if leb 500 status_code && ltb status_code 600
    then (responses_5xx, 1) ∷ []
    else []

abbrev fetch_adds : Record → List (Counter × ℕ)
fetch_adds accept = (accepts, 1) ∷ []
fetch_adds (request n) = (requests, 1) ∷ (bytes_in, n) ∷ []
fetch_adds (response status n) = class_of status ++ (bytes_out, n) ∷ []

abbrev additions : ℕ → List (Counter × ℕ) → List Addition
additions i [] = []
additions i ((c, n) ∷ more) = record { place = i; counter = c; amount = n } ∷ additions i more

-- Additions to a shard, one after the other.
apply_all : List (Counter × ℕ) → WorkerMetricsShard → WorkerMetricsShard
unfolding add_to
apply_all [] s = s
apply_all ((c, n) ∷ more) s = apply_all more (add_to c n s)

on_shard-id : (i : ℕ) (shards : MetricsRegistry) → on_shard (λ s. s) (some i) shards ≡ shards
unfolding on_shard
on_shard-id i [] = refl
on_shard-id zero (none ∷ shards) = refl
on_shard-id zero (some s ∷ shards) = refl
on_shard-id (suc i) (s ∷ shards) =
    on_shard-suc (λ x. x) s shards i ∙ ap (◌∷◌ s) (on_shard-id i shards)

on_shard_twice :
    (f g : WorkerMetricsShard → WorkerMetricsShard) (i : ℕ) (shards : MetricsRegistry)
    → on_shard g (some i) (on_shard f (some i) shards) ≡ on_shard (λ s. g (f s)) (some i) shards
unfolding on_shard
on_shard_twice f g i [] = refl
on_shard_twice f g zero (none ∷ shards) = refl
on_shard_twice f g zero (some s ∷ shards) = refl
on_shard_twice f g (suc i) (s ∷ shards) =
    ap (on_shard g (some (suc i))) (on_shard-suc f s shards i)
    ∙ on_shard-suc g s (on_shard f (some i) shards) i
    ∙ ap (◌∷◌ s) (on_shard_twice f g i shards)
    ∙ sym (on_shard-suc (λ x. g (f x)) s shards i)

on_shard-adds :
    (ops : List (Counter × ℕ)) (i : ℕ) (shards : MetricsRegistry)
    → on_shard (apply_all ops) (some i) shards ≡ adds (additions i ops) shards
unfolding apply_all adds
on_shard-adds [] i shards = on_shard-id i shards
on_shard-adds ((c, n) ∷ more) i shards =
    sym (on_shard_twice (add_to c n) (apply_all more) i shards)
    ∙ on_shard-adds more i (on_shard (add_to c n) (some i) shards)

count-apply_all : (r : Record) (s : WorkerMetricsShard) → count r s ≡ apply_all (fetch_adds r) s
unfolding count_accept count_request count_response count_status apply_all add_to
count-apply_all accept s = refl
count-apply_all (request n) s = refl
count-apply_all (response status n) s = elim (Bool-cases (leb 200 status && ltb status 300)) [
  | inl ok ↦ rw (ok, count_status) refl
  | inr not_ok ↦ elim (Bool-cases (leb 400 status && ltb status 500)) [
    | inl client ↦ rw (not_ok, client, count_status) refl
    | inr not_client ↦ elim (Bool-cases (leb 500 status && ltb status 600)) [
      | inl server ↦ rw (not_ok, not_client, server, count_status) refl
      | inr other ↦ rw (not_ok, not_client, other, count_status) refl
    ]
  ]
]

-- A record of a thread with a shard is its `fetch_add`s, one after the other.
record_event-adds :
    (i : ℕ) (r : Record) (shards : MetricsRegistry)
    → record_event shards (some i, r) ≡ adds (additions i (fetch_adds r)) shards
record_event-adds i r shards =
    record_event-on_shard shards (some i) r
    ∙ ap (λ f. on_shard f (some i) shards) (λ t s. count-apply_all r s t)
    ∙ on_shard-adds (fetch_adds r) i shards
