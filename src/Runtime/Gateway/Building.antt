-- ===== src/Runtime/Gateway/Building.antt =====
-- The constructor of `GatewayRuntime` of src/runtime/gateway_runtime.cpp, and the sum of violations.
use net.Base.{
  ◌⊎◌, ℕ, suc, zero, ◌+◌, ◌%◌, ◌<◌, ◌≡◌, ◌≢◌, refl, ap, ◌∙◌, false, ltb, ◌==◌, ◌&&◌, List, [], ◌∷◌,
  length, length-append, arith, Option, none, some, Bool-cases, inl, inr, subst,
}
use net.Routing.Trie.{StdSort}
use net.Observability.Metrics.{u64_mod, MetricsRegistry, create_worker_shard}
use net.Runtime.Spine.{SpineConfig, RuntimeSpine, Listening, new_spine}
use net.Runtime.Gateway.{
  Worker, GatewayRuntime, Built, built, refused, no_workers, port_not_fixed, spine_failed,
  add_worker, make_workers, build, new_gateway, add_violations, total_affinity_violation_count,
}

-- The violations of all workers.
abbrev pub violations : List Worker → ℕ
violations [] = 0
violations (w ∷ ws) = w.spine.affinity_violation_count + violations ws

add_violations-sum :
    (total : ℕ) (ws : List Worker)
    → total < u64_mod
    → add_violations total ws ≡ (total + violations ws) % u64_mod
unfolding add_violations
add_violations-sum total [] h = omega arith
add_violations-sum total (w ∷ ws) h = omega (
  arith,
  add_violations-sum ((total + w.spine.affinity_violation_count) % u64_mod) ws (omega arith),
)

-- The total is the sum over the workers, as `uint64_t` adds.
pub total_violations :
    (g : GatewayRuntime) → total_affinity_violation_count g ≡ violations g.workers % u64_mod
unfolding total_affinity_violation_count
total_violations g =
    add_violations-sum 0 g.workers (omega arith) ∙ ap (λ (n : ℕ). n % u64_mod) (omega arith)

-- Workers whose shards are the places from `k` on, that no thread serves yet.
abbrev pub AreNew : ℕ → List Worker → Type 0
AreNew k [] = Unit {0}
AreNew k (w ∷ ws) = (w.metrics_shard ≡ k) × (w.is_running ≡ false) × AreNew (suc k) ws

-- What is known of workers that have been made.
abbrev Made : ℕ → MetricsRegistry → Option (List Worker × MetricsRegistry) → Type 0
Made n registry none = Unit {0}
Made n registry (some (ws, registry')) =
    (length ws ≡ n) × AreNew (length registry) ws × (length registry' ≡ length registry + n)

add_worker-Made :
    (n : ℕ) (registry registry' : MetricsRegistry) (o : Option RuntimeSpine)
    (rest : Option (List Worker × MetricsRegistry))
    → length registry' ≡ suc (length registry)
    → Made n registry' rest
    → Made (suc n) registry (add_worker o (length registry) rest)
add_worker-Made n registry registry' none rest e h = tt
add_worker-Made n registry registry' (some spine) none e h = tt
add_worker-Made n registry registry' (some spine) (some (ws, last)) e h =
    (omega (arith, h.0), (refl, refl, subst (λ k. AreNew k ws) e h.1), omega (arith, h.2, e))

make_workers-Made :
    (std : StdSort) (config : SpineConfig) (answers : ℕ → Listening) (i n : ℕ)
    (registry : MetricsRegistry)
    → Made n registry (make_workers std config answers i n registry)
unfolding make_workers create_worker_shard
make_workers-Made std config answers i zero registry = (refl, tt, omega arith)
make_workers-Made std config answers i (suc n) registry =
    add_worker-Made n registry (create_worker_shard registry).0 (new_spine std config (answers i)) _
      (omega (arith, length-append registry (some _ ∷ [])))
      (make_workers-Made std config answers (suc i) n (create_worker_shard registry).0)

-- What the constructor comes to, for a number of workers.
pub data Builds (config : SpineConfig) (n : ℕ) (registry : MetricsRegistry) (b : Built)
    : Type 0 where
  zero_workers : n ≡ 0 → b ≡ refused no_workers → Builds config n registry b
  shared_port :
      1 < n → config.listen_port ≡ 0 → b ≡ refused port_not_fixed → Builds config n registry b
  spine_fails :
      0 < n
      → (n ≡ 1) ⊎ (config.listen_port ≢ 0)
      → b ≡ refused spine_failed
      → Builds config n registry b
  made :
      0 < n
      → (n ≡ 1) ⊎ (config.listen_port ≢ 0)
      → (ws : List Worker) (registry' : MetricsRegistry) → length ws ≡ n
      → AreNew (length registry) ws
      → length registry' ≡ length registry + n
      → b ≡ built (record { config = config; workers = ws; started = false }) registry'
      → Builds config n registry b

build-Builds :
    (config : SpineConfig) (n : ℕ) (registry : MetricsRegistry)
    (o : Option (List Worker × MetricsRegistry))
    → 0 < n
    → (n ≡ 1) ⊎ (config.listen_port ≢ 0)
    → Made n registry o
    → Builds config n registry (build config o)
build-Builds config n registry none h k m = spine_fails h k refl
build-Builds config n registry (some (ws, registry')) h k m = made h k ws registry' m.0 m.1 m.2 refl

single_or_port :
    (n port : ℕ) → (n == 0) ≡ false → (ltb 1 n && port == 0) ≡ false → (n ≡ 1) ⊎ (port ≢ 0)
single_or_port n port h k = elim (Bool-cases (port == 0)) [
  | inl none_fixed ↦ inl (ground (arith, h, k, none_fixed))
  | inr fixed ↦ inr (λ e. ground (arith, fixed, e))
]

-- The constructor refuses no workers, and several workers without a fixed port, and fails if a spine
-- does; otherwise it makes as many workers as it is told, none of them running, each with its own new
-- metrics shard, and the gateway is not started.
pub new_gateway-Builds :
    (std : StdSort) (config : SpineConfig) (n : ℕ) (answers : ℕ → Listening)
    (registry : MetricsRegistry)
    → Builds config n registry (new_gateway std config n answers registry)
unfolding new_gateway
new_gateway-Builds std config n answers registry = elim (Bool-cases (n == 0)) [
  | inl zero_count ↦ rw (zero_count, new_gateway) (zero_workers (ground (arith, zero_count)) refl)
  | inr some_count ↦ elim (Bool-cases (ltb 1 n && config.listen_port == 0)) [
    | inl shared ↦
        rw (some_count, shared, new_gateway)
          (shared_port (ground (arith, shared)) (ground (arith, shared)) refl)
    | inr apart ↦
        rw (some_count, apart, new_gateway)
          (build-Builds config n registry (make_workers std config answers 0 n registry)
            (ground (arith, some_count)) (single_or_port n config.listen_port some_count apart)
            (make_workers-Made std config answers 0 n registry))
  ]
]
