-- ===== src/Observability/Tests.antt =====
-- Runs of src/observability/metrics.cpp.
use net.Base.{
  ℕ, ◌≤◌, ◌==◌, ◌&&◌, if◌then◌else◌, ◌+◌, ◌%◌, ◌≡◌, refl, List, [], ◌∷◌, none, some, map,
}
use net.Observability.Metrics.{
  u64_mod, WorkerMetricsShard, new_shard, MetricsRegistry, create_worker_shard, TlsShard, aggregate,
  render_prometheus,
}
use net.Observability.Metrics.Scrape.{scrape, series, counters, scrape-render_prometheus}
use net.Observability.Metrics.Concurrent.{Others, same, add_to, exported}
use net.Observability.Metrics.Concurrent.Loads.{meanwhile}
use net.Observability.Metrics.Concurrent.Between.{exported_between}
use net.Observability.Metrics.Totals.{requests, bytes_in, responses_4xx, read, sum}
use net.Observability.Metrics.Recording.{
  Record, accept, request, response, record_events, added_all, total-record_events,
}

-- Two workers, of which the second has gone.
abbrev registry : MetricsRegistry
registry = some new_shard ∷ none ∷ some new_shard ∷ []

abbrev events : List (TlsShard × Record)
events =
    (some 0, accept)
    ∷ (some 2, request 40)
    ∷ (none, request 99)
    ∷ (some 0, request 2)
    ∷ (some 0, response 404 10)
    ∷ (some 1, request 7)
    ∷ []

forty_two_bytes : read bytes_in (aggregate new_shard (record_events registry events)) ≡ 42
unfolding record_events aggregate net.Observability.Metrics.Recording.record_event
forty_two_bytes = refl

new_place : (create_worker_shard registry).1 ≡ 3
unfolding create_worker_shard
new_place = refl

total-record_events_example :
    read responses_4xx (aggregate new_shard (record_events registry events))
    ≡ (sum responses_4xx registry + added_all responses_4xx registry events) % u64_mod
total-record_events_example = total-record_events responses_4xx registry events

scrape-render_prometheus_example :
    scrape (render_prometheus (record_events registry events))
    ≡ map (λ c. (series c, sum c (record_events registry events) % u64_mod)) counters
scrape-render_prometheus_example = scrape-render_prometheus (record_events registry events)

-- While the last shard is loaded, a request of 40 bytes is counted by each of the other threads;
-- the first one's is too late.
abbrev busy : Others
busy i c =
    if i == 2 && same c requests
    then record { place = 0; counter = requests; amount = 1 }
      ∷ record { place = 2; counter = requests; amount = 1 }
      ∷ record { place = 2; counter = bytes_in; amount = 40 }
      ∷ []
    else []

one_is_seen : read requests (exported busy registry) ≡ 1
unfolding exported add_to
one_is_seen = refl

exported_between_example :
    (x : ℕ) × (x ≤ meanwhile requests busy 0 3)
    × (read requests (exported busy registry) ≡ (sum requests registry + x) % u64_mod)
exported_between_example = exported_between requests busy registry
