-- ===== src/Observability/Metrics/Recording.antt =====
-- What the records of src/observability/metrics.cpp add to the totals that are exported.
use net.Base.{
  ℕ, suc, zero, ◌+◌, ◌%◌, ◌≡◌, refl, sym, ap, ap₂, ◌∙◌, Bool, true, false, ◌&&◌, leb, ltb,
  if◌then◌else◌, List, [], ◌∷◌, get_elem?, set, Option, none, some, arith,
}
use net.Observability.Metrics.{
  u64_mod, WorkerMetricsShard, new_shard, MetricsRegistry, TlsShard, count_accept, count_request,
  count_status, count_response, on_shard, on_live, record_accept, record_request, record_response,
  aggregate,
}
use net.Observability.Metrics.Totals.{
  Counter, accepts, requests, responses_2xx, responses_4xx, responses_5xx, bytes_in, bytes_out,
  read, sum, total-aggregate,
}

-- What threads record.
pub data Record : Type 0 where
  accept : Record
  request : ℕ → Record
  response : ℕ → ℕ → Record

unfoldable pub record_event : MetricsRegistry → TlsShard × Record → MetricsRegistry
unfolding record_accept record_request record_response
record_event shards (tls, accept) = record_accept tls shards
record_event shards (tls, request n) = record_request n tls shards
record_event shards (tls, response status_code n) = record_response status_code n tls shards

unfoldable pub record_events : MetricsRegistry → List (TlsShard × Record) → MetricsRegistry
record_events shards [] = shards
record_events shards (e ∷ es) = record_events (record_event shards e) es

abbrev is_between : ℕ → ℕ → ℕ → ℕ
is_between lo hi status = if leb lo status && ltb status hi then 1 else 0

-- How much each record adds to each counter.
abbrev pub weight : Counter → Record → ℕ
weight accepts accept = 1
weight requests (request n) = 1
weight bytes_in (request n) = n
weight responses_2xx (response status n) = is_between 200 300 status
weight responses_4xx (response status n) = is_between 400 500 status
weight responses_5xx (response status n) = is_between 500 600 status
weight bytes_out (response status n) = n
weight _ _ = 0

-- What a record does to the shard it falls on.
abbrev pub count : Record → WorkerMetricsShard → WorkerMetricsShard
count accept = count_accept
count (request n) = count_request n
count (response status n) = count_response status n

pub record_event-on_shard :
    (shards : MetricsRegistry) (tls : TlsShard) (r : Record)
    → record_event shards (tls, r) ≡ on_shard (count r) tls shards
unfolding record_event record_accept record_request record_response
record_event-on_shard shards tls accept = refl
record_event-on_shard shards tls (request n) = refl
record_event-on_shard shards tls (response status n) = refl

read-count_status :
    (c : Counter) (status : ℕ) (s : WorkerMetricsShard)
    → read c (count_status status s) % u64_mod ≡ (read c s + weight c (response status 0)) % u64_mod
unfolding count_status
read-count_status accepts status s = ground arith
read-count_status requests status s = ground arith
read-count_status responses_2xx status s = ground arith
read-count_status responses_4xx status s = ground arith
read-count_status responses_5xx status s = ground arith
read-count_status bytes_in status s = ground arith
read-count_status bytes_out status s = ground arith

read-count :
    (c : Counter) (r : Record) (s : WorkerMetricsShard)
    → read c (count r s) % u64_mod ≡ (read c s + weight c r) % u64_mod
unfolding count_accept count_request count_response
read-count accepts accept s = omega arith
read-count requests accept s = omega arith
read-count responses_2xx accept s = omega arith
read-count responses_4xx accept s = omega arith
read-count responses_5xx accept s = omega arith
read-count bytes_in accept s = omega arith
read-count bytes_out accept s = omega arith
read-count accepts (request n) s = omega arith
read-count requests (request n) s = omega arith
read-count responses_2xx (request n) s = omega arith
read-count responses_4xx (request n) s = omega arith
read-count responses_5xx (request n) s = omega arith
read-count bytes_in (request n) s = omega arith
read-count bytes_out (request n) s = omega arith
read-count accepts (response status n) s = read-count_status accepts status s
read-count requests (response status n) s = read-count_status requests status s
read-count responses_2xx (response status n) s = read-count_status responses_2xx status s
read-count responses_4xx (response status n) s = read-count_status responses_4xx status s
read-count responses_5xx (response status n) s = read-count_status responses_5xx status s
read-count bytes_in (response status n) s = read-count_status bytes_in status s
read-count bytes_out (response status n) s = omega (arith, read-count_status bytes_out status s)

-- Whether a thread has bound a shard that is still there.
abbrev pub is_shard : Option (Option WorkerMetricsShard) → Bool
is_shard (some (some s)) = true
is_shard _ = false

abbrev pub is_bound : MetricsRegistry → TlsShard → Bool
is_bound shards none = false
is_bound shards (some i) = is_shard (get_elem? shards i)

abbrev shard_of : WorkerMetricsShard → Option (Option WorkerMetricsShard) → WorkerMetricsShard
shard_of u (some (some s)) = s
shard_of u _ = u

sum-set :
    (c : Counter) (shards : MetricsRegistry) (i : ℕ) (s t : WorkerMetricsShard)
    → get_elem? shards i ≡ some (some s)
    → sum c (set shards i (some t)) + read c s ≡ sum c shards + read c t
sum-set c [] i s t h = cc
sum-set c (none ∷ shards) zero s t h = cc
sum-set c (some u ∷ shards) zero s t h = omega (arith, ap (λ o. read c (shard_of u o)) h)
sum-set c (none ∷ shards) (suc i) s t h = sum-set c shards i s t h
sum-set c (some u ∷ shards) (suc i) s t h = omega (arith, sum-set c shards i s t h)

is_shard-set :
    (shards : MetricsRegistry) (i j : ℕ) (s t : WorkerMetricsShard)
    → get_elem? shards i ≡ some (some s)
    → is_shard (get_elem? (set shards i (some t)) j) ≡ is_shard (get_elem? shards j)
is_shard-set [] i j s t h = refl
is_shard-set (o ∷ shards) zero zero s t h = sym (ap is_shard h)
is_shard-set (o ∷ shards) zero (suc j) s t h = refl
is_shard-set (o ∷ shards) (suc i) zero s t h = refl
is_shard-set (o ∷ shards) (suc i) (suc j) s t h = is_shard-set shards i j s t h

-- What a record adds to a counter of the registry.
abbrev pub added : Counter → MetricsRegistry → TlsShard × Record → ℕ
added c shards (tls, r) = if is_bound shards tls then weight c r else 0

abbrev pub added_all : Counter → MetricsRegistry → List (TlsShard × Record) → ℕ
added_all c shards [] = 0
added_all c shards (e ∷ es) = added c shards e + added_all c shards es

on_live-is_bound :
    (f : WorkerMetricsShard → WorkerMetricsShard) (shards : MetricsRegistry) (i : ℕ)
    (o : Option (Option WorkerMetricsShard)) (tls : TlsShard)
    → get_elem? shards i ≡ o
    → is_bound (on_live f shards i o) tls ≡ is_bound shards tls
on_live-is_bound f shards i o none h = refl
on_live-is_bound f shards i none (some j) h = refl
on_live-is_bound f shards i (some none) (some j) h = refl
on_live-is_bound f shards i (some (some s)) (some j) h = is_shard-set shards i j s (f s) h

on_live-sum :
    (c : Counter) (r : Record) (shards : MetricsRegistry) (i : ℕ)
    (o : Option (Option WorkerMetricsShard))
    → get_elem? shards i ≡ o
    → sum c (on_live (count r) shards i o) % u64_mod
      ≡ (sum c shards + (if is_shard o then weight c r else 0)) % u64_mod
on_live-sum c r shards i none h = omega arith
on_live-sum c r shards i (some none) h = omega arith
on_live-sum c r shards i (some (some s)) h =
    omega (arith, sum-set c shards i s (count r s) h, read-count c r s)

pub record_event-is_bound :
    (shards : MetricsRegistry) (e : TlsShard × Record) (tls : TlsShard)
    → is_bound (record_event shards e) tls ≡ is_bound shards tls
unfolding on_shard
record_event-is_bound shards (none, r) tls =
    ap (λ k. is_bound k tls) (record_event-on_shard shards none r)
record_event-is_bound shards (some i, r) tls =
    ap (λ k. is_bound k tls) (record_event-on_shard shards (some i) r)
    ∙ on_live-is_bound (count r) shards i (get_elem? shards i) tls refl

pub record_event-sum :
    (c : Counter) (shards : MetricsRegistry) (e : TlsShard × Record)
    → sum c (record_event shards e) % u64_mod ≡ (sum c shards + added c shards e) % u64_mod
unfolding on_shard
record_event-sum c shards (none, r) =
    ap (λ k. sum c k % u64_mod) (record_event-on_shard shards none r) ∙ omega arith
record_event-sum c shards (some i, r) =
    ap (λ k. sum c k % u64_mod) (record_event-on_shard shards (some i) r)
    ∙ on_live-sum c r shards i (get_elem? shards i) refl

added_all-cong :
    (c : Counter) (a b : MetricsRegistry) (es : List (TlsShard × Record))
    → ((tls : TlsShard) → is_bound a tls ≡ is_bound b tls)
    → added_all c a es ≡ added_all c b es
added_all-cong c a b [] h = refl
added_all-cong c a b ((tls, r) ∷ es) h =
    ap₂ ◌+◌ (ap (λ k. if k then weight c r else 0) (h tls)) (added_all-cong c a b es h)

record_events-sum :
    (c : Counter) (shards : MetricsRegistry) (es : List (TlsShard × Record))
    → sum c (record_events shards es) % u64_mod ≡ (sum c shards + added_all c shards es) % u64_mod
unfolding record_events
record_events-sum c shards [] = omega arith
record_events-sum c shards (e ∷ es) = omega (
  arith,
  record_events-sum c (record_event shards e) es,
  record_event-sum c shards e,
  added_all-cong c (record_event shards e) shards es (record_event-is_bound shards e),
)

-- After any records, by any threads in any order, each total that is exported is, modulo `2 ^ 64`,
-- the sum of the counter over the shards that were there before, and of what the records made by
-- threads with a live shard add to it: one for an accepted connection, one and the bytes read for a
-- request, and the bytes written and one in the class of its status for a response. A record of a
-- thread that has bound no live shard adds nothing.
pub total-record_events :
    (c : Counter) (shards : MetricsRegistry) (es : List (TlsShard × Record))
    → read c (aggregate new_shard (record_events shards es))
      ≡ (sum c shards + added_all c shards es) % u64_mod
total-record_events c shards es =
    total-aggregate c (record_events shards es) ∙ record_events-sum c shards es
