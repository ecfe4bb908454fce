-- ===== src/Observability/Metrics/Concurrent/Loads.antt =====
-- What the loads of src/observability/metrics.cpp find while other threads count.
use net.Base.{
  ℕ, zero, suc, ◌+◌, ◌≡◌, refl, sym, ap, ◌∙◌, Bool, true, false, Bool-cases, any, ==_iff, ==_refl,
  subst, List, [], ◌∷◌, get_elem?, drop, Option, none, some, arith, inl, inr,
}
use net.Observability.Metrics.{WorkerMetricsShard, MetricsRegistry}
use net.Observability.Metrics.Totals.{
  Counter, accepts, requests, responses_2xx, responses_4xx, responses_5xx, bytes_in, bytes_out,
  read, sum,
}
use net.Observability.Metrics.Concurrent.{
  index, same, add_to, Addition, adds, loaded, load, Others, load_counters, load_shard,
  aggregate_among, read-add_to,
}
use net.Observability.Metrics.Concurrent.Growth.{
  Grows, Grows-refl, Grows-trans, Grows-more, Grows-plus, amounts, adds-Grows, sum-drop,
}

-- The sum that is yet to come, where the counters cs of the shard at i are to be loaded.
abbrev ahead : Bool → Counter → ℕ → MetricsRegistry → ℕ
ahead true c i shards = sum c (drop i shards)
ahead false c i shards = sum c (drop (suc i) shards)

abbrev to_come : Counter → ℕ → List Counter → MetricsRegistry → ℕ
to_come c i cs shards = ahead (any (same c) cs) c i shards

ahead-Grows :
    (b : Bool) (c : Counter) (more : List Addition) (i : ℕ) (shards : MetricsRegistry)
    → Grows (amounts c more) (ahead b c i shards) (ahead b c i (adds more shards))
ahead-Grows true c more i shards = adds-Grows c more i shards
ahead-Grows false c more i shards = adds-Grows c more (suc i) shards

loaded_at : (c : Counter) → get_elem? loaded (index c) ≡ some c
loaded_at accepts = refl
loaded_at requests = refl
loaded_at responses_2xx = refl
loaded_at responses_4xx = refl
loaded_at responses_5xx = refl
loaded_at bytes_in = refl
loaded_at bytes_out = refl

same-eq : (c d : Counter) → same c d ≡ true → c ≡ d
same-eq c d h =
    let found =
      sym (loaded_at c) ∙ ap (get_elem? loaded) ((==_iff (index c) (index d)).0 h) ∙ loaded_at d in
    cc

matching-Grows :
    (c : Counter) (i : ℕ) (cs : List Counter) (shards : MetricsRegistry) (t : WorkerMetricsShard)
    → any (same c) cs ≡ false
    → Grows 0
        (read c t + to_come c i (c ∷ cs) shards)
        (read c (add_to c (load c (get_elem? shards i)) t) + to_come c i cs shards)
matching-Grows c i cs shards t once =
    rw (read-add_to c c (load c (get_elem? shards i)) t, ==_refl (index c), once)
      (record { by = 0; at_most = omega arith; becomes = omega (arith, sum-drop c i shards) })

-- A load moves a counter from what is to come to the sums.
load-Grows :
    (c d : Counter) (i : ℕ) (cs : List Counter) (shards : MetricsRegistry) (t : WorkerMetricsShard)
    → any (same d) cs ≡ false
    → Grows 0
        (read c t + to_come c i (d ∷ cs) shards)
        (read c (add_to d (load d (get_elem? shards i)) t) + to_come c i cs shards)
load-Grows c d i cs shards t once = elim (Bool-cases (same c d)) [
  | inl equal ↦
      subst
        (λ x.
          any (same x) cs ≡ false
          → Grows 0 (read c t + to_come c i (x ∷ cs) shards)
              (read c (add_to x (load x (get_elem? shards i)) t) + to_come c i cs shards))
        (same-eq c d equal) (matching-Grows c i cs shards t) once
  | inr apart ↦
      rw (read-add_to c d (load d (get_elem? shards i)) t, apart)
        (Grows-refl 0 (read c t + to_come c i cs shards))
]

-- Each counter is loaded once.
abbrev AreDistinct : List Counter → Type 0
AreDistinct [] = Unit
AreDistinct (d ∷ cs) = (any (same d) cs ≡ false) × AreDistinct cs

abbrev budget : Counter → Others → ℕ → List Counter → ℕ
budget c others i [] = 0
budget c others i (d ∷ cs) = amounts c (others i d) + budget c others i cs

load_counters-Grows :
    (c : Counter) (others : Others) (i : ℕ) (cs : List Counter) (shards : MetricsRegistry)
    (t : WorkerMetricsShard)
    → AreDistinct cs
    → let (shards', t') = load_counters others i cs shards t in
      Grows
        (budget c others i cs)
        (read c t + to_come c i cs shards)
        (read c t' + sum c (drop (suc i) shards'))
unfolding load_counters
load_counters-Grows c others i [] shards t h = Grows-refl 0 (read c t + sum c (drop (suc i) shards))
load_counters-Grows c others i (d ∷ cs) shards t (once, distinct) =
    let before = ahead-Grows (any (same c) (d ∷ cs)) c (others i d) i shards in
    let counted = adds (others i d) shards in
    Grows-trans (Grows-plus (read c t) (omega arith) before) (
      Grows-more (omega arith) (
        Grows-trans (load-Grows c d i cs counted t once) (
          load_counters-Grows c others i cs counted (add_to d (load d (get_elem? counted i)) t)
            distinct)))

loaded-AreDistinct : AreDistinct loaded
loaded-AreDistinct = (refl, (refl, (refl, (refl, (refl, (refl, (refl, tt)))))))

is_loaded : (c : Counter) → any (same c) loaded ≡ true
is_loaded accepts = refl
is_loaded requests = refl
is_loaded responses_2xx = refl
is_loaded responses_4xx = refl
is_loaded responses_5xx = refl
is_loaded bytes_in = refl
is_loaded bytes_out = refl

gone-Grows :
    (n : ℕ) (c : Counter) (i : ℕ) (shards : MetricsRegistry) (t : WorkerMetricsShard)
    → load c (get_elem? shards i) ≡ 0
    → Grows n (read c t + sum c (drop i shards)) (read c t + sum c (drop (suc i) shards))
gone-Grows n c i shards t none_there = record {
  by = 0;
  at_most = omega arith;
  becomes = omega (arith, sum-drop c i shards);
}

load_shard-Grows :
    (c : Counter) (others : Others) (i : ℕ) (o : Option (Option WorkerMetricsShard))
    (shards : MetricsRegistry) (t : WorkerMetricsShard)
    → get_elem? shards i ≡ o
    → let (shards', t') = load_shard others i o shards t in
      Grows
        (budget c others i loaded)
        (read c t + sum c (drop i shards))
        (read c t' + sum c (drop (suc i) shards'))
load_shard-Grows c others i none shards t at = gone-Grows _ c i shards t (ap (load c) at)
load_shard-Grows c others i (some none) shards t at = gone-Grows _ c i shards t (ap (load c) at)
load_shard-Grows c others i (some (some s)) shards t at =
    let (shards', t') = load_counters others i loaded shards t in
    subst
      (λ b.
        Grows (budget c others i loaded) (read c t + ahead b c i shards)
          (read c t' + sum c (drop (suc i) shards')))
      (is_loaded c) (load_counters-Grows c others i loaded shards t loaded-AreDistinct)

-- What other threads add to a counter while the shards from a place on are loaded.
abbrev pub meanwhile : Counter → Others → ℕ → ℕ → ℕ
meanwhile c others i zero = 0
meanwhile c others i (suc left) = budget c others i loaded + meanwhile c others (suc i) left

pub aggregate_among-Grows :
    (c : Counter) (others : Others) (i left : ℕ) (shards : MetricsRegistry) (t : WorkerMetricsShard)
    → let (shards', t') = aggregate_among others i left shards t in
      Grows
        (meanwhile c others i left)
        (read c t + sum c (drop i shards))
        (read c t' + sum c (drop (i + left) shards'))
unfolding aggregate_among
aggregate_among-Grows c others i zero shards t =
    let e : i ≡ i + 0 = omega arith in
    subst (λ k. Grows 0 (read c t + sum c (drop i shards)) (read c t + sum c (drop k shards))) e
      (Grows-refl 0 (read c t + sum c (drop i shards)))
aggregate_among-Grows c others i (suc left) shards t =
    let (shards', t') = load_shard others i (get_elem? shards i) shards t in
    let e : suc i + left ≡ i + suc left = omega arith in
    Grows-trans (load_shard-Grows c others i (get_elem? shards i) shards t refl) (
      subst
        (λ k. Grows (meanwhile c others (suc i) left) (read c t' + sum c (drop (suc i) shards')) (
          read c (aggregate_among others (suc i) left shards' t').1
          + sum c (drop k (aggregate_among others (suc i) left shards' t').0)))
        e (aggregate_among-Grows c others (suc i) left shards' t'))
