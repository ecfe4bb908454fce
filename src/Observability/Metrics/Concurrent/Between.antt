-- ===== src/Observability/Metrics/Concurrent/Between.antt =====
-- The sums that `render_prometheus` of src/observability/metrics.cpp exports while other threads count.
use net.Base.{
  ℕ, zero, suc, ◌+◌, ◌%◌, ◌≤◌, ◌<◌, ◌≡◌, refl, sym, ap, ◌∙◌, Bool-cases, subst, List, [], ◌∷◌,
  get_elem?, drop, drop_all, length, length-set, Option, none, some, arith, inl, inr,
}
use net.Observability.Metrics.{
  u64_mod, WorkerMetricsShard, new_shard, MetricsRegistry, on_shard, on_live,
}
use net.Observability.Metrics.Totals.{Counter, read, sum, read-new_shard}
use net.Observability.Metrics.Concurrent.{
  same, bump, add_to, Addition, adds, loaded, load, Others, load_counters, load_shard,
  aggregate_among, exported, read-add_to,
}
use net.Observability.Metrics.Concurrent.Loads.{meanwhile, aggregate_among-Grows}

length-on_live :
    (f : WorkerMetricsShard → WorkerMetricsShard) (shards : MetricsRegistry) (i : ℕ)
    (o : Option (Option WorkerMetricsShard))
    → length (on_live f shards i o) ≡ length shards
length-on_live f shards i none = refl
length-on_live f shards i (some none) = refl
length-on_live f shards i (some (some s)) = length-set shards i (some (f s))

length-adds :
    (more : List Addition) (shards : MetricsRegistry) → length (adds more shards) ≡ length shards
unfolding adds on_shard
length-adds [] shards = refl
length-adds (a ∷ more) shards =
    length-adds more _
    ∙ length-on_live (add_to a.counter a.amount) shards a.place (get_elem? shards a.place)

bump-lt : (c d : Counter) (n x : ℕ) → x < u64_mod → bump c d n x < u64_mod
bump-lt c d n x h = elim (Bool-cases (same c d)) [
  | inl equal ↦ rw equal (omega arith)
  | inr apart ↦ rw apart h
]

-- The loads leave the number of shards, and a sum within 64 bits.
abbrev Stays : Counter → ℕ → MetricsRegistry × WorkerMetricsShard → Type 0
Stays c n (shards, t) = (length shards ≡ n) × (read c t < u64_mod)

load_counters-Stays :
    (c : Counter) (others : Others) (i n : ℕ) (cs : List Counter) (shards : MetricsRegistry)
    (t : WorkerMetricsShard)
    → Stays c n (shards, t)
    → Stays c n (load_counters others i cs shards t)
unfolding load_counters
load_counters-Stays c others i n [] shards t h = h
load_counters-Stays c others i n (d ∷ cs) shards t (len, lt) =
    let counted = adds (others i d) shards in
    load_counters-Stays c others i n cs counted _ (
      length-adds (others i d) shards ∙ len,
      rw (read-add_to c d (load d (get_elem? counted i)) t)
          (bump-lt c d (load d (get_elem? counted i)) (read c t) lt),
    )

load_shard-Stays :
    (c : Counter) (others : Others) (i n : ℕ) (o : Option (Option WorkerMetricsShard))
    (shards : MetricsRegistry) (t : WorkerMetricsShard)
    → Stays c n (shards, t)
    → Stays c n (load_shard others i o shards t)
load_shard-Stays c others i n none shards t h = h
load_shard-Stays c others i n (some none) shards t h = h
load_shard-Stays c others i n (some (some s)) shards t h =
    load_counters-Stays c others i n loaded shards t h

aggregate_among-Stays :
    (c : Counter) (others : Others) (i left n : ℕ) (shards : MetricsRegistry)
    (t : WorkerMetricsShard)
    → Stays c n (shards, t)
    → Stays c n (aggregate_among others i left shards t)
unfolding aggregate_among
aggregate_among-Stays c others i zero n shards t h = h
aggregate_among-Stays c others i (suc left) n shards t h =
    let (shards', t') = load_shard others i (get_elem? shards i) shards t in
    aggregate_among-Stays c others (suc i) left n shards' t'
      (load_shard-Stays c others i n (get_elem? shards i) shards t h)

-- Nothing is ahead behind the last shard.
sum-past :
    (c : Counter) (n : ℕ) (shards : MetricsRegistry) → length shards ≡ n → sum c (drop n shards) ≡ 0
sum-past c n shards h = subst (λ k. sum c (drop k shards) ≡ 0) h (ap (sum c) (drop_all shards))

-- While other threads count, at any loads and by any amounts, and no shard is added or destroyed:
-- each exported sum is, modulo `2 ^ 64`, between the sum over the shards at the start and that sum
-- with all that the others add to the counter meanwhile.
pub exported_between :
    (c : Counter) (others : Others) (shards : MetricsRegistry)
    → (x : ℕ) × (x ≤ meanwhile c others 0 (length shards))
      × (read c (exported others shards) ≡ (sum c shards + x) % u64_mod)
unfolding exported
exported_between c others shards =
    let n = length shards in
    let (shards', t) = aggregate_among others 0 n shards new_shard in
    let g = aggregate_among-Grows c others 0 n shards new_shard in
    let (len, lt) =
      aggregate_among-Stays c others 0 n n shards new_shard
        (refl, omega (arith, read-new_shard c)) in
    let past : sum c (drop (0 + n) shards') ≡ 0 = sum-past c (0 + n) shards' (omega (arith, len)) in
    let moved : (read c t + 0) % u64_mod ≡ (0 + sum c shards + g.by) % u64_mod =
      ap (λ x. (read c t + x) % u64_mod) (sym past)
      ∙ g.becomes
      ∙ ap (λ x. (x + sum c shards + g.by) % u64_mod) (read-new_shard c) in
    (g.by, g.at_most, omega (arith, moved, lt))
