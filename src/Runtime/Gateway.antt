-- ===== src/Runtime/Gateway.antt =====
-- src/runtime/gateway_runtime.cpp: `GatewayRuntime`, its workers, and how they start and stop. What
-- the system answers when a thread is made and bound to a core is an argument. A thread runs its event
-- loop until the loop is stopped, so a join returns once it is.
pub mod Lifecycle
pub mod Restarting
pub mod Answers
pub mod Building
use net.Base.{
  ℕ, suc, zero, ◌+◌, ◌%◌, Bool, true, false, not, ◌&&◌, ltb, leb, ◌==◌, if◌then◌else◌, List, [],
  ◌∷◌, length, map, Option, none, some,
}
use net.Routing.Trie.{StdSort}
use net.Observability.Metrics.{u64_mod, MetricsRegistry, create_worker_shard}
use net.Runtime.Spine as Spine
use net.Runtime.Spine.{SpineConfig, RuntimeSpine, Listening, new_spine}

-- `is_spawned`: the accept loop has been given to the event loop; `is_stopped`: the event loop has been
-- stopped; `is_running`: the thread is joinable.
pub record Worker : Type 0 where
  pub spine : RuntimeSpine
  pub metrics_shard : ℕ
  pub is_spawned : Bool
  pub is_stopped : Bool
  pub is_running : Bool

pub record GatewayRuntime : Type 0 where
  pub config : SpineConfig
  pub workers : List Worker
  pub started : Bool

-- What a constructor throws.
pub data Refused : Type 0 where
  no_workers port_not_fixed spine_failed : Refused

pub data Built : Type 0 where
  built : GatewayRuntime → MetricsRegistry → Built
  refused : Refused → Built

abbrev pub new_worker : RuntimeSpine → ℕ → Worker
new_worker spine shard = record {
  spine = spine;
  metrics_shard = shard;
  is_spawned = false;
  is_stopped = false;
  is_running = false;
}

-- The loop of the constructor, from worker `i` on; `none` if the constructor of a spine throws.
abbrev pub add_worker :
    Option RuntimeSpine
    → ℕ
    → Option (List Worker × MetricsRegistry)
    → Option (List Worker × MetricsRegistry)
add_worker none shard rest = none
add_worker (some spine) shard none = none
add_worker (some spine) shard (some (workers, registry)) =
    some (new_worker spine shard ∷ workers, registry)

pub make_workers :
    StdSort
    → SpineConfig
    → (ℕ → Listening)
    → ℕ
    → ℕ
    → MetricsRegistry
    → Option (List Worker × MetricsRegistry)
unfolding new_spine create_worker_shard
make_workers std config answers i zero registry = some ([], registry)
make_workers std config answers i (suc n) registry =
    let (registry', shard) = create_worker_shard registry in
    add_worker (new_spine std config (answers i)) shard
      (make_workers std config answers (suc i) n registry')

abbrev pub build : SpineConfig → Option (List Worker × MetricsRegistry) → Built
build config none = refused spine_failed
build config (some (workers, registry)) =
    built (record { config = config; workers = workers; started = false }) registry

pub new_gateway : StdSort → SpineConfig → ℕ → (ℕ → Listening) → MetricsRegistry → Built
unfolding make_workers
new_gateway std config worker_count answers registry =
    if worker_count == 0
    then refused no_workers
    else if ltb 1 worker_count && config.listen_port == 0
    then refused port_not_fixed
    else build config (make_workers std config answers 0 worker_count registry)

-- Whether a worker's thread can be made, and bound to its core.
pub record Launch : Type 0 where
  pub thread_ok : Bool
  pub bind_ok : Bool

pub stop_spine : Worker → Worker
unfolding Spine.stop
stop_spine w = record w { spine = Spine.stop w.spine }

pub stop_io : Worker → Worker
stop_io w = record w { is_stopped = true }

unfoldable pub join : Worker → Worker
join w = record w { is_running = false }

-- The three loops that `stop` and the handler in `start` have in common.
pub stop_workers : List Worker → List Worker
unfolding stop_spine stop_io join
stop_workers workers = map join (map stop_io (map stop_spine workers))

-- `RuntimeSpine::start` gives the accept loop to the worker's event loop.
abbrev pub start_spine : Worker → Worker
start_spine w = record w { is_spawned = true }

-- The loop of `start`, from worker `i` on, with whether it has ended without an exception.
pub launch_all : (ℕ → Launch) → ℕ → List Worker → List Worker × Bool
launch_all launch i [] = ([], true)
launch_all launch i (w ∷ ws) =
    let (rest, ok) = launch_all launch (suc i) ws in
    let spawned = start_spine w in
    let running = record spawned { is_running = true } in
    if not (launch i).thread_ok
    then (spawned ∷ ws, false)
    else if not (launch i).bind_ok
    then (running ∷ ws, false)
    else (running ∷ rest, ok)

-- `hardware_concurrency()` may be 0 where it is not known.
abbrev pub hardware_cores : ℕ → ℕ
hardware_cores detected = if detected == 0 then 1 else detected

-- The end of `start`: `started_`, or the handler, which throws again.
abbrev pub settle : GatewayRuntime → List Worker × Bool → GatewayRuntime × Bool
settle g (workers, true) = (record g { workers = workers; started = true }, true)
settle g (workers, false) = (record g { workers = stop_workers workers }, false)

-- With the new state comes whether `start` returns without an exception.
unfoldable pub start : ℕ → (ℕ → Launch) → GatewayRuntime → GatewayRuntime × Bool
unfolding launch_all stop_workers
start detected_cores launch g =
    if g.started
    then (g, true)
    else if ltb (hardware_cores detected_cores) (length g.workers)
    then settle g (g.workers, false)
    else settle g (launch_all launch 0 g.workers)

unfoldable pub stop : GatewayRuntime → GatewayRuntime
unfolding stop_workers
stop g = if not g.started then g else record g { workers = stop_workers g.workers; started = false }

-- The destructor.
unfoldable pub destroy : GatewayRuntime → GatewayRuntime
unfolding stop
destroy g = stop g

-- The port of the first worker; `none` where its spine throws.
abbrev pub front_port : ℕ → List Worker → Option ℕ
front_port endpoint_port [] = some 0
front_port endpoint_port (w ∷ ws) = Spine.local_port endpoint_port w.spine

unfoldable pub local_port : ℕ → GatewayRuntime → Option ℕ
local_port endpoint_port g = front_port endpoint_port g.workers

unfoldable pub worker_count : GatewayRuntime → ℕ
worker_count g = length g.workers

-- The loop of `total_affinity_violation_count`.
pub add_violations : ℕ → List Worker → ℕ
add_violations total [] = total
add_violations total (w ∷ ws) =
    add_violations ((total + w.spine.affinity_violation_count) % u64_mod) ws

pub total_affinity_violation_count : GatewayRuntime → ℕ
unfolding add_violations
total_affinity_violation_count g = add_violations 0 g.workers
