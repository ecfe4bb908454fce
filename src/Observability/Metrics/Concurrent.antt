-- ===== src/Observability/Metrics/Concurrent.antt =====
-- `render_prometheus` of src/observability/metrics.cpp while other threads count: its loads of the
-- shards' counters one by one, and the `fetch_add`s of other threads in between. It has the
-- registry's mutex, so no shard is added; none is destroyed either.
pub mod Growth
pub mod Loads
pub mod Between
pub mod Alone
pub mod Records
use net.Base.{
  ℕ, zero, suc, ◌+◌, ◌≡◌, refl, ap, ◌∙◌, ◌==◌, if◌then◌else◌, Bool, List, [], ◌∷◌, get_elem?,
  length, Option, none, some,
}
use net.Observability.Metrics.{
  WorkerMetricsShard, new_shard, MetricsRegistry, TlsShard, fetch_add, on_shard, count_accept,
  count_request, add_shard, aggregate, record_accept, record_request,
}
use net.Observability.Metrics.Totals.{
  Counter, accepts, requests, responses_2xx, responses_4xx, responses_5xx, bytes_in, bytes_out,
  read,
}

abbrev pub index : Counter → ℕ
index accepts = 0
index requests = 1
index responses_2xx = 2
index responses_4xx = 3
index responses_5xx = 4
index bytes_in = 5
index bytes_out = 6

abbrev pub same : Counter → Counter → Bool
same c d = index c == index d

-- What an addition to the counter `d` makes of the counter `c`.
abbrev pub bump : Counter → Counter → ℕ → ℕ → ℕ
bump c d n x = if same c d then fetch_add x n else x

-- A `fetch_add` of one counter, or an addition to one of the sums.
unfoldable pub add_to : Counter → ℕ → WorkerMetricsShard → WorkerMetricsShard
add_to d n s = record {
  accepts_total = bump accepts d n s.accepts_total;
  requests_total = bump requests d n s.requests_total;
  responses_2xx_total = bump responses_2xx d n s.responses_2xx_total;
  responses_4xx_total = bump responses_4xx d n s.responses_4xx_total;
  responses_5xx_total = bump responses_5xx d n s.responses_5xx_total;
  bytes_in_total = bump bytes_in d n s.bytes_in_total;
  bytes_out_total = bump bytes_out d n s.bytes_out_total;
}

-- A `fetch_add` by a thread: the place of its shard, the counter, and by how much.
pub record Addition : Type 0 where
  pub place : ℕ
  pub counter : Counter
  pub amount : ℕ

unfoldable pub adds : List Addition → MetricsRegistry → MetricsRegistry
unfolding add_to on_shard
adds [] shards = shards
adds (a ∷ more) shards = adds more (on_shard (add_to a.counter a.amount) (some a.place) shards)

-- The order in which a shard's counters are loaded.
abbrev pub loaded : List Counter
loaded =
    accepts ∷ requests ∷ responses_2xx ∷ responses_4xx ∷ responses_5xx ∷ bytes_in ∷ bytes_out ∷ []

abbrev pub load : Counter → Option (Option WorkerMetricsShard) → ℕ
load c (some (some s)) = read c s
load c _ = 0

-- What other threads do just before a load, by the place of the shard and the counter.
abbrev pub Others : Type 0
Others = ℕ → Counter → List Addition

-- The loads of a shard that is still there, with the registry and the sums.
unfoldable pub load_counters :
    Others
    → ℕ
    → List Counter
    → MetricsRegistry
    → WorkerMetricsShard
    → MetricsRegistry × WorkerMetricsShard
unfolding adds add_to
load_counters others i [] shards t = (shards, t)
load_counters others i (c ∷ cs) shards t =
    let shards' = adds (others i c) shards in
    load_counters others i cs shards' (add_to c (load c (get_elem? shards' i)) t)

-- A shard that has gone is passed over.
abbrev pub load_shard :
    Others
    → ℕ
    → Option (Option WorkerMetricsShard)
    → MetricsRegistry
    → WorkerMetricsShard
    → MetricsRegistry × WorkerMetricsShard
load_shard others i (some (some s)) shards t = load_counters others i loaded shards t
load_shard others i _ shards t = (shards, t)

-- The loop over the shards, from a place on.
unfoldable pub aggregate_among :
    Others → ℕ → ℕ → MetricsRegistry → WorkerMetricsShard → MetricsRegistry × WorkerMetricsShard
unfolding load_counters
aggregate_among others i zero shards t = (shards, t)
aggregate_among others i (suc left) shards t =
    let (shards', t') = load_shard others i (get_elem? shards i) shards t in
    aggregate_among others (suc i) left shards' t'

-- The sums that `render_prometheus` exports.
unfoldable pub exported : Others → MetricsRegistry → WorkerMetricsShard
unfolding aggregate_among
exported others shards = (aggregate_among others 0 (length shards) shards new_shard).1

pub read-add_to :
    (c d : Counter) (n : ℕ) (s : WorkerMetricsShard) → read c (add_to d n s) ≡ bump c d n (read c s)
unfolding add_to
read-add_to accepts d n s = refl
read-add_to requests d n s = refl
read-add_to responses_2xx d n s = refl
read-add_to responses_4xx d n s = refl
read-add_to responses_5xx d n s = refl
read-add_to bytes_in d n s = refl
read-add_to bytes_out d n s = refl
