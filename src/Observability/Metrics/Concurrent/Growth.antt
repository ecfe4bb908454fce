-- ===== src/Observability/Metrics/Concurrent/Growth.antt =====
-- What additions by other threads do to the sums of src/observability/metrics.cpp.
use net.Base.{
  ℕ, zero, suc, ◌+◌, ◌%◌, ◌≤◌, ◌≡◌, refl, ap, if◌then◌else◌, Bool-cases, List, [], ◌∷◌, get_elem?,
  drop, Option, none, some, arith, inl, inr,
}
use net.Observability.Metrics.{u64_mod, WorkerMetricsShard, MetricsRegistry, on_shard, on_live}
use net.Observability.Metrics.Totals.{Counter, read, sum}
use net.Observability.Metrics.Concurrent.{same, bump, add_to, Addition, adds, load, read-add_to}

-- A value that has grown, modulo `2 ^ 64`, by at most n.
pub record Grows (n a b : ℕ) : Type 0 where
  pub by : ℕ
  pub at_most : by ≤ n
  pub becomes : b % u64_mod ≡ (a + by) % u64_mod

pub Grows-refl : (n a : ℕ) → Grows n a a
Grows-refl n a = record {
  by = 0;
  at_most = omega arith;
  becomes = ap (λ x. x % u64_mod) (omega arith);
}

pub Grows-trans : {n m a b c : ℕ} → Grows n a b → Grows m b c → Grows (n + m) a c
Grows-trans g h = record {
  by = g.by + h.by;
  at_most = omega (arith, g.at_most, h.at_most);
  becomes = omega (arith, g.becomes, h.becomes);
}

pub Grows-more : {n m a b : ℕ} → n ≤ m → Grows n a b → Grows m a b
Grows-more le g = record { by = g.by; at_most = omega (arith, g.at_most); becomes = g.becomes }

-- More is allowed, and something else is added on both sides.
pub Grows-plus : {n m a b : ℕ} (x : ℕ) → n ≤ m → Grows n a b → Grows m (x + a) (x + b)
Grows-plus x le g = record {
  by = g.by;
  at_most = omega (arith, g.at_most);
  becomes = omega (arith, g.becomes);
}

abbrev amount_of : Counter → Addition → ℕ
amount_of c a = if same c a.counter then a.amount else 0

-- How much additions come to for a counter.
abbrev pub amounts : Counter → List Addition → ℕ
amounts c [] = 0
amounts c (a ∷ more) = amount_of c a + amounts c more

on_live-suc :
    (f : WorkerMetricsShard → WorkerMetricsShard) (s : Option WorkerMetricsShard)
    (shards : MetricsRegistry) (j : ℕ) (o : Option (Option WorkerMetricsShard))
    → on_live f (s ∷ shards) (suc j) o ≡ s ∷ on_live f shards j o
on_live-suc f s shards j none = refl
on_live-suc f s shards j (some none) = refl
on_live-suc f s shards j (some (some x)) = refl

pub on_shard-suc :
    (f : WorkerMetricsShard → WorkerMetricsShard) (s : Option WorkerMetricsShard)
    (shards : MetricsRegistry) (j : ℕ)
    → on_shard f (some (suc j)) (s ∷ shards) ≡ s ∷ on_shard f (some j) shards
unfolding on_shard
on_shard-suc f s shards j = on_live-suc f s shards j (get_elem? shards j)

bump-Grows : (c d : Counter) (n x : ℕ) → Grows (if same c d then n else 0) x (bump c d n x)
bump-Grows c d n x = elim (Bool-cases (same c d)) [
  | inl equal ↦ rw equal (record { by = n; at_most = omega arith; becomes = omega arith })
  | inr apart ↦ rw apart (Grows-refl 0 x)
]

sum-cons :
    (c : Counter) (s : Option WorkerMetricsShard) (shards : MetricsRegistry)
    → sum c (s ∷ shards) ≡ load c (some s) + sum c shards
sum-cons c none shards = omega arith
sum-cons c (some s) shards = refl

add_head-Grows :
    (c : Counter) (a : Addition) (s : WorkerMetricsShard) (shards : MetricsRegistry)
    → Grows
        (amount_of c a)
        (read c s + sum c shards)
        (read c (add_to a.counter a.amount s) + sum c shards)
add_head-Grows c a s shards =
    let g = bump-Grows c a.counter a.amount (read c s) in
    record {
      by = g.by;
      at_most = g.at_most;
      becomes = omega (arith, g.becomes, read-add_to c a.counter a.amount s);
    }

-- An addition to a shard makes the sum over the shards from a place on grow by at most its amount.
add-Grows :
    (c : Counter) (a : Addition) (i j : ℕ) (shards : MetricsRegistry)
    → Grows
        (amount_of c a)
        (sum c (drop i shards))
        (sum c (drop i (on_shard (add_to a.counter a.amount) (some j) shards)))
unfolding on_shard
add-Grows c a i j [] = Grows-refl (amount_of c a) (sum c (drop i []))
add-Grows c a zero zero (none ∷ shards) = Grows-refl (amount_of c a) (sum c shards)
add-Grows c a zero zero (some s ∷ shards) = add_head-Grows c a s shards
add-Grows c a (suc i) zero (none ∷ shards) = Grows-refl (amount_of c a) (sum c (drop i shards))
add-Grows c a (suc i) zero (some s ∷ shards) = Grows-refl (amount_of c a) (sum c (drop i shards))
add-Grows c a zero (suc j) (s ∷ shards) =
    let others = on_shard (add_to a.counter a.amount) (some j) shards in
    rw
      (
        on_shard-suc (add_to a.counter a.amount) s shards j,
        sum-cons c s shards,
        sum-cons c s others,
      )
      (Grows-plus (load c (some s)) (omega arith) (add-Grows c a zero j shards))
add-Grows c a (suc i) (suc j) (s ∷ shards) =
    rw (on_shard-suc (add_to a.counter a.amount) s shards j) (add-Grows c a i j shards)

pub adds-Grows :
    (c : Counter) (more : List Addition) (i : ℕ) (shards : MetricsRegistry)
    → Grows (amounts c more) (sum c (drop i shards)) (sum c (drop i (adds more shards)))
unfolding adds
adds-Grows c [] i shards = Grows-refl 0 (sum c (drop i shards))
adds-Grows c (a ∷ more) i shards =
    Grows-trans (add-Grows c a i a.place shards) (adds-Grows c more i _)

pub sum-drop :
    (c : Counter) (i : ℕ) (shards : MetricsRegistry)
    → sum c (drop i shards) ≡ load c (get_elem? shards i) + sum c (drop (suc i) shards)
sum-drop c zero [] = omega arith
sum-drop c (suc i) [] = omega arith
sum-drop c zero (s ∷ shards) = sum-cons c s shards
sum-drop c (suc i) (s ∷ shards) = sum-drop c i shards
