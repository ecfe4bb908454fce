-- ===== src/Observability/Metrics/Totals.antt =====
-- What `render_prometheus` of src/observability/metrics.cpp exports, as a sum over the shards.
use net.Base.{ℕ, ◌+◌, ◌%◌, ◌<◌, ◌≡◌, refl, ap, [], ◌∷◌, none, some, arith}
use net.Observability.Metrics.{
  u64_mod, WorkerMetricsShard, new_shard, MetricsRegistry, add_shard, aggregate,
}

-- The seven counters, to be spoken of together.
pub data Counter : Type 0 where
  accepts requests responses_2xx responses_4xx responses_5xx bytes_in bytes_out : Counter

abbrev pub read : Counter → WorkerMetricsShard → ℕ
read accepts s = s.accepts_total
read requests s = s.requests_total
read responses_2xx s = s.responses_2xx_total
read responses_4xx s = s.responses_4xx_total
read responses_5xx s = s.responses_5xx_total
read bytes_in s = s.bytes_in_total
read bytes_out s = s.bytes_out_total

-- The sum of a counter over the shards that are there.
abbrev pub sum : Counter → MetricsRegistry → ℕ
sum c [] = 0
sum c (none ∷ shards) = sum c shards
sum c (some s ∷ shards) = read c s + sum c shards

read-add_shard :
    (c : Counter) (t s : WorkerMetricsShard)
    → read c (add_shard t s) ≡ (read c t + read c s) % u64_mod
read-add_shard accepts t s = refl
read-add_shard requests t s = refl
read-add_shard responses_2xx t s = refl
read-add_shard responses_4xx t s = refl
read-add_shard responses_5xx t s = refl
read-add_shard bytes_in t s = refl
read-add_shard bytes_out t s = refl

aggregate-sum :
    (c : Counter) (t : WorkerMetricsShard) (shards : MetricsRegistry)
    → read c (aggregate t shards) % u64_mod ≡ (read c t + sum c shards) % u64_mod
unfolding aggregate
aggregate-sum c t [] = ap (λ x. x % u64_mod) (omega arith)
aggregate-sum c t (none ∷ shards) = aggregate-sum c t shards
aggregate-sum c t (some s ∷ shards) =
    omega (arith, aggregate-sum c (add_shard t s) shards, read-add_shard c t s)

aggregate-lt :
    (c : Counter) (t : WorkerMetricsShard) (shards : MetricsRegistry)
    → read c t < u64_mod
    → read c (aggregate t shards) < u64_mod
unfolding aggregate
aggregate-lt c t [] h = h
aggregate-lt c t (none ∷ shards) h = aggregate-lt c t shards h
aggregate-lt c t (some s ∷ shards) h =
    aggregate-lt c (add_shard t s) shards (omega (arith, read-add_shard c t s))

pub read-new_shard : (c : Counter) → read c new_shard ≡ 0
read-new_shard accepts = refl
read-new_shard requests = refl
read-new_shard responses_2xx = refl
read-new_shard responses_4xx = refl
read-new_shard responses_5xx = refl
read-new_shard bytes_in = refl
read-new_shard bytes_out = refl

-- What is exported is the sum over the shards, as `uint64_t` adds.
pub total-aggregate :
    (c : Counter) (shards : MetricsRegistry)
    → read c (aggregate new_shard shards) ≡ sum c shards % u64_mod
total-aggregate c shards = omega (
  arith,
  aggregate-sum c new_shard shards,
  read-new_shard c,
  aggregate-lt c new_shard shards (omega (arith, read-new_shard c)),
)
