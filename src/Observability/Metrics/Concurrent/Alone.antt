-- ===== src/Observability/Metrics/Concurrent/Alone.antt =====
-- Without other threads, the loads one by one are the loop of `render_prometheus`.
use net.Base.{
  ℕ, zero, suc, ◌≡◌, refl, ap, ◌∙◌, [], ◌∷◌, get_elem?, drop, drop-get_elem?, length, Option, none,
  some, arith,
}
use net.Observability.Metrics.{WorkerMetricsShard, new_shard, MetricsRegistry, add_shard, aggregate}
use net.Observability.Metrics.Concurrent.{loaded, Others, load_counters, aggregate_among, exported}

abbrev nobody : Others
nobody = λ i c. []

-- A shard's loads, undisturbed, are the additions of `add_shard`.
load_counters-add_shard :
    (i : ℕ) (shards : MetricsRegistry) (t s : WorkerMetricsShard)
    → get_elem? shards i ≡ some (some s)
    → load_counters nobody i loaded shards t ≡ (shards, add_shard t s)
unfolding load_counters
load_counters-add_shard i shards t s h = rw h refl

past-end :
    (i : ℕ) (shards : MetricsRegistry) → get_elem? shards i ≡ none → length (drop i shards) ≡ 0
past-end zero [] h = refl
past-end (suc i) [] h = refl
past-end zero (s ∷ shards) h = cc
past-end (suc i) (s ∷ shards) h = past-end i shards h

abbrev IsAlone : ℕ → ℕ → MetricsRegistry → WorkerMetricsShard → Type 0
IsAlone i left shards t =
    aggregate_among nobody i left shards t ≡ (shards, aggregate t (drop i shards))

at_end :
    (i : ℕ) (rest shards : MetricsRegistry) (t : WorkerMetricsShard)
    → length rest ≡ 0
    → ◌≡◌ {A = MetricsRegistry × WorkerMetricsShard} (shards, t) (shards, aggregate t rest)
unfolding aggregate
at_end i [] shards t h = refl
at_end i (s ∷ rest) shards t h = absurd (omega arith)

step-IsAlone :
    (i left : ℕ) (o : Option (Option WorkerMetricsShard)) (shards : MetricsRegistry)
    (t : WorkerMetricsShard)
    → get_elem? shards i ≡ o
    → length (drop i shards) ≡ suc left
    → ((t' : WorkerMetricsShard)
        → length (drop (suc i) shards) ≡ left
        → IsAlone (suc i) left shards t')
    → IsAlone i (suc left) shards t
unfolding aggregate_among aggregate
step-IsAlone i left none shards t at len next = absurd (omega (arith, len, past-end i shards at))
step-IsAlone i left (some none) shards t at len next =
    let cut = drop-get_elem? shards i none at in
    rw (at, cut) (next t (omega (arith, len, ap length cut)))
step-IsAlone i left (some (some s)) shards t at len next =
    let cut = drop-get_elem? shards i (some s) at in
    rw (at, cut)
      (ap
          (λ (r : MetricsRegistry × WorkerMetricsShard).
            aggregate_among nobody (suc i) left r.0 r.1)
          (load_counters-add_shard i shards t s at)
        ∙ next (add_shard t s) (omega (arith, len, ap length cut)))

loop-IsAlone :
    (i left : ℕ) (shards : MetricsRegistry) (t : WorkerMetricsShard)
    → length (drop i shards) ≡ left
    → IsAlone i left shards t
unfolding aggregate_among
loop-IsAlone i zero shards t len = at_end i (drop i shards) shards t len
loop-IsAlone i (suc left) shards t len =
    step-IsAlone i left (get_elem? shards i) shards t refl len
      (λ t' len'. loop-IsAlone (suc i) left shards t' len')

exported-aggregate :
    (shards : MetricsRegistry) → exported nobody shards ≡ aggregate new_shard shards
unfolding exported
exported-aggregate shards =
    ap (λ (r : MetricsRegistry × WorkerMetricsShard). r.1)
      (loop-IsAlone 0 (length shards) shards new_shard refl)
