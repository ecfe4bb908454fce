-- ===== src/Observability/Metrics.antt =====
-- src/observability/metrics.cpp. A shard is known by its place in the registry's list; a place whose
-- shard is gone holds `none`, as its `weak_ptr` has expired. The shard that a thread has bound is an
-- argument of what the thread records. Counters are `uint64_t`.
pub mod Totals
pub mod Recording
pub mod Scrape
pub mod Concurrent
use net.Base.{
  ℕ, suc, ◌+◌, ◌%◌, ◌^◌, Text, codes, to_string, Bool, true, false, ◌&&◌, leb, ltb, if◌then◌else◌,
  List, [], ◌∷◌, ◌++◌, length, get_elem?, set, Option, none, some,
}

abbrev pub u64_mod : ℕ
u64_mod = 2 ^ 64

pub record WorkerMetricsShard : Type 0 where
  pub accepts_total : ℕ
  pub requests_total : ℕ
  pub responses_2xx_total : ℕ
  pub responses_4xx_total : ℕ
  pub responses_5xx_total : ℕ
  pub bytes_in_total : ℕ
  pub bytes_out_total : ℕ

abbrev pub new_shard : WorkerMetricsShard
new_shard = record {
  accepts_total = 0;
  requests_total = 0;
  responses_2xx_total = 0;
  responses_4xx_total = 0;
  responses_5xx_total = 0;
  bytes_in_total = 0;
  bytes_out_total = 0;
}

abbrev pub MetricsRegistry : Type 0
MetricsRegistry = List (Option WorkerMetricsShard)

-- The new registry, and the place of the shard.
unfoldable pub create_worker_shard : MetricsRegistry → MetricsRegistry × ℕ
create_worker_shard shards = (shards ++ some new_shard ∷ [], length shards)

-- `tls_worker_shard`: null, or the place of a shard.
abbrev pub TlsShard : Type 0
TlsShard = Option ℕ

unfoldable pub bind_thread_local_shard : ℕ → TlsShard → TlsShard
bind_thread_local_shard shard tls = some shard

unfoldable pub unbind_thread_local_shard : TlsShard → TlsShard
unbind_thread_local_shard tls = none

-- `counter.fetch_add(n)`
abbrev pub fetch_add : ℕ → ℕ → ℕ
fetch_add counter n = (counter + n) % u64_mod

pub count_accept : WorkerMetricsShard → WorkerMetricsShard
count_accept s = record s { accepts_total = fetch_add s.accepts_total 1 }

pub count_request : ℕ → WorkerMetricsShard → WorkerMetricsShard
count_request bytes_in s = record s {
  requests_total = fetch_add s.requests_total 1;
  bytes_in_total = fetch_add s.bytes_in_total bytes_in;
}

pub count_status : ℕ → WorkerMetricsShard → WorkerMetricsShard
count_status status_code s =
    if leb 200 status_code && ltb status_code 300
    then record s { responses_2xx_total = fetch_add s.responses_2xx_total 1 }
    else if leb 400 status_code && ltb status_code 500
    then record s { responses_4xx_total = fetch_add s.responses_4xx_total 1 }
    else if leb 500 status_code && ltb status_code 600
    then record s { responses_5xx_total = fetch_add s.responses_5xx_total 1 }
    else s

pub count_response : ℕ → ℕ → WorkerMetricsShard → WorkerMetricsShard
unfolding count_status
count_response status_code bytes_out s =
    let counted = count_status status_code s in
    record counted { bytes_out_total = fetch_add counted.bytes_out_total bytes_out }

-- A change of the shard that the thread has bound; nothing, if it has bound none.
abbrev pub on_live :
    (WorkerMetricsShard → WorkerMetricsShard)
    → MetricsRegistry
    → ℕ
    → Option (Option WorkerMetricsShard)
    → MetricsRegistry
on_live f shards i (some (some s)) = set shards i (some (f s))
on_live f shards i _ = shards

pub on_shard :
    (WorkerMetricsShard → WorkerMetricsShard) → TlsShard → MetricsRegistry → MetricsRegistry
on_shard f none shards = shards
on_shard f (some i) shards = on_live f shards i (get_elem? shards i)

pub record_accept : TlsShard → MetricsRegistry → MetricsRegistry
unfolding on_shard count_accept
record_accept = on_shard count_accept

pub record_request : ℕ → TlsShard → MetricsRegistry → MetricsRegistry
unfolding on_shard count_request
record_request bytes_in = on_shard (count_request bytes_in)

pub record_response : ℕ → ℕ → TlsShard → MetricsRegistry → MetricsRegistry
unfolding on_shard count_response
record_response status_code bytes_out = on_shard (count_response status_code bytes_out)

-- The loop of `render_prometheus` over the shards that are still there.
abbrev pub add_shard : WorkerMetricsShard → WorkerMetricsShard → WorkerMetricsShard
add_shard t s = record {
  accepts_total = fetch_add t.accepts_total s.accepts_total;
  requests_total = fetch_add t.requests_total s.requests_total;
  responses_2xx_total = fetch_add t.responses_2xx_total s.responses_2xx_total;
  responses_4xx_total = fetch_add t.responses_4xx_total s.responses_4xx_total;
  responses_5xx_total = fetch_add t.responses_5xx_total s.responses_5xx_total;
  bytes_in_total = fetch_add t.bytes_in_total s.bytes_in_total;
  bytes_out_total = fetch_add t.bytes_out_total s.bytes_out_total;
}

unfoldable pub aggregate : WorkerMetricsShard → MetricsRegistry → WorkerMetricsShard
aggregate t [] = t
aggregate t (none ∷ shards) = aggregate t shards
aggregate t (some s ∷ shards) = aggregate (add_shard t s) shards

-- The lines of the text, each without its line feed.
pub render_lines : WorkerMetricsShard → List Text
render_lines t =
    codes "# HELP netp2_accepts_total Total accepted TCP connections."
    ∷ codes "# TYPE netp2_accepts_total counter"
    ∷ (codes "netp2_accepts_total " ++ to_string t.accepts_total)
    ∷ codes "# HELP netp2_requests_total Total handled HTTP requests."
    ∷ codes "# TYPE netp2_requests_total counter"
    ∷ (codes "netp2_requests_total " ++ to_string t.requests_total)
    ∷ codes "# HELP netp2_responses_total Total HTTP responses by status class."
    ∷ codes "# TYPE netp2_responses_total counter"
    ∷ (codes "netp2_responses_total{code=\"2xx\"} " ++ to_string t.responses_2xx_total)
    ∷ (codes "netp2_responses_total{code=\"4xx\"} " ++ to_string t.responses_4xx_total)
    ∷ (codes "netp2_responses_total{code=\"5xx\"} " ++ to_string t.responses_5xx_total)
    ∷ codes "# HELP netp2_bytes_in_total Total request bytes read."
    ∷ codes "# TYPE netp2_bytes_in_total counter"
    ∷ (codes "netp2_bytes_in_total " ++ to_string t.bytes_in_total)
    ∷ codes "# HELP netp2_bytes_out_total Total response bytes written."
    ∷ codes "# TYPE netp2_bytes_out_total counter"
    ∷ (codes "netp2_bytes_out_total " ++ to_string t.bytes_out_total)
    ∷ []

pub join_lines : List Text → Text
join_lines [] = []
join_lines (l ∷ ls) = l ++ 10 ∷ join_lines ls

unfoldable pub render_prometheus : MetricsRegistry → Text
unfolding aggregate render_lines join_lines
render_prometheus shards = join_lines (render_lines (aggregate new_shard shards))
