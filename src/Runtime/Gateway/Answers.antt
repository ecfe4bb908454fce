-- ===== src/Runtime/Gateway/Answers.antt =====
-- src/runtime/gateway_runtime.cpp: which answers of the system make the constructor of `GatewayRuntime`
-- and its `start` succeed.
use net.Base.{
  ℕ, zero, suc, ◌≡◌, refl, sym, ap, ap₂, ◌<◌, ◌∙◌, length, Bool, true, false, not, ◌&&◌, ltb, leb,
  ◌==◌, if◌then◌else◌, List, [], ◌∷◌, Option, none, some, arith,
}
use net.Routing.Trie.{StdSort}
use net.Observability.Metrics.{MetricsRegistry}
use net.Runtime.Spine as Spine
use net.Runtime.Spine.{SpineConfig, RuntimeSpine, Listening, new_spine}
use net.Runtime.Gateway.{
  Worker, GatewayRuntime, Launch, Built, built, refused, add_worker, make_workers, build,
  new_gateway, launch_all, settle, start, stop, stop_workers, front_port, local_port,
  hardware_cores,
}
use net.Runtime.Gateway.Lifecycle.{start-settle, stop_started}

-- Whether a test holds of `n` numbers from `i` on.
unfoldable pub all_from : (ℕ → Bool) → ℕ → ℕ → Bool
all_from p i zero = true
all_from p i (suc n) = p i && all_from p (suc i) n

abbrev pub listens : SpineConfig → Listening → Bool
listens config a =
    a.address_ok && not (config.enable_reuse_port && not a.reuse_port_ok) && a.bind_ok

abbrev pub launches : Launch → Bool
launches l = l.thread_ok && l.bind_ok

abbrev pub is_some {ℓ} : {A : Type ℓ} → Option A → Bool
is_some none = false
is_some (some x) = true

abbrev pub is_built : Built → Bool
is_built (built g registry) = true
is_built (refused reason) = false

launch_all-ok :
    (launch : ℕ → Launch) (i : ℕ) (ws : List Worker)
    → (launch_all launch i ws).1 ≡ all_from (λ k. launches (launch k)) i (length ws)
unfolding launch_all all_from
launch_all-ok launch i [] = refl
launch_all-ok launch i (w ∷ ws) = ground (arith, launch_all-ok launch (suc i) ws)

settle-ok : (g : GatewayRuntime) (r : List Worker × Bool) → (settle g r).1 ≡ r.1
settle-ok g (ws, true) = refl
settle-ok g (ws, false) = refl

not_lt→leb : (a b : ℕ) → ltb a b ≡ false → leb b a ≡ true
not_lt→leb a b h = ground arith

length-launch_all :
    (launch : ℕ → Launch) (i : ℕ) (ws : List Worker) → length (launch_all launch i ws).0 ≡ length ws
unfolding launch_all
length-launch_all launch i [] = refl
length-launch_all launch i (w ∷ ws) = ground (arith, length-launch_all launch (suc i) ws)

length-stop_workers : (ws : List Worker) → length (stop_workers ws) ≡ length ws
unfolding stop_workers
length-stop_workers [] = refl
length-stop_workers (w ∷ ws) = ap suc (length-stop_workers ws)

length-settle :
    (g : GatewayRuntime) (r : List Worker × Bool)
    → length r.0 ≡ length g.workers
    → length (settle g r).0.workers ≡ length g.workers
length-settle g (ws, true) h = h
length-settle g (ws, false) h = length-stop_workers ws ∙ h

-- Whatever comes of it, starting keeps the workers that there are.
pub length-start :
    (cores : ℕ) (launch : ℕ → Launch) (g : GatewayRuntime)
    → g.started ≡ false
    → length (start cores launch g).0.workers ≡ length g.workers
length-start cores launch g h =
    ap (λ (r : GatewayRuntime × Bool). length r.0.workers) (start-settle cores launch g h)
    ∙ length-settle g _ (either (ltb (hardware_cores cores) (length g.workers)))
  where
    either :
        (b : Bool)
        → length (if b then (g.workers, false) else launch_all launch 0 g.workers).0
          ≡ length g.workers
    either true = refl
    either false = length-launch_all launch 0 g.workers

-- A gateway that is not started starts exactly if it has no more workers than there are cores and each
-- thread can be made and bound.
pub start-ok :
    (cores : ℕ) (launch : ℕ → Launch) (g : GatewayRuntime)
    → g.started ≡ false
    → (start cores launch g).1 ≡ (
        leb (length g.workers) (hardware_cores cores)
        && all_from (λ k. launches (launch k)) 0 (length g.workers))
start-ok cores launch g h =
    ap (λ (r : GatewayRuntime × Bool). r.1) (start-settle cores launch g h)
    ∙ settle-ok g _
    ∙ branch (ltb (hardware_cores cores) (length g.workers)) refl
  where
    branch :
        (b : Bool)
        → ltb (hardware_cores cores) (length g.workers) ≡ b
        → (if b then (g.workers, false) else launch_all launch 0 g.workers).1 ≡ (
            leb (length g.workers) (hardware_cores cores)
            && all_from (λ k. launches (launch k)) 0 (length g.workers))
    branch true many = ground arith
    branch false few =
        launch_all-ok launch 0 g.workers
        ∙ ap (λ b. b && all_from (λ k. launches (launch k)) 0 (length g.workers))
            (sym (not_lt→leb (hardware_cores cores) (length g.workers) few))

new_spine-is_some :
    (std : StdSort) (config : SpineConfig) (a : Listening)
    → is_some (new_spine std config a) ≡ listens config a
unfolding new_spine
new_spine-is_some std config a = ground arith

add_worker-is_some :
    (o : Option RuntimeSpine) (shard : ℕ) (rest : Option (List Worker × MetricsRegistry))
    → is_some (add_worker o shard rest) ≡ (is_some o && is_some rest)
add_worker-is_some none shard rest = refl
add_worker-is_some (some s) shard none = refl
add_worker-is_some (some s) shard (some r) = refl

make_workers-is_some :
    (std : StdSort) (config : SpineConfig) (answers : ℕ → Listening) (i n : ℕ)
    (registry : MetricsRegistry)
    → is_some (make_workers std config answers i n registry)
      ≡ all_from (λ k. listens config (answers k)) i n
unfolding make_workers all_from
make_workers-is_some std config answers i zero registry = refl
make_workers-is_some std config answers i (suc n) registry =
    add_worker-is_some (new_spine std config (answers i)) _ _
    ∙ ap₂ ◌&&◌ (new_spine-is_some std config (answers i))
        (make_workers-is_some std config answers (suc i) n _)

build-is_built :
    (config : SpineConfig) (o : Option (List Worker × MetricsRegistry))
    → is_built (build config o) ≡ is_some o
build-is_built config none = refl
build-is_built config (some r) = refl

-- With some workers, and a fixed port if they are several, the constructor returns exactly if each
-- spine's acceptor can be opened, bound and set to listen.
pub new_gateway-is_built :
    (std : StdSort) (config : SpineConfig) (n : ℕ) (answers : ℕ → Listening)
    (registry : MetricsRegistry)
    → (n == 0) ≡ false
    → (ltb 1 n && config.listen_port == 0) ≡ false
    → is_built (new_gateway std config n answers registry)
      ≡ all_from (λ k. listens config (answers k)) 0 n
unfolding new_gateway
new_gateway-is_built std config n answers registry h k =
    rw (h, k, new_gateway)
      (build-is_built config _ ∙ make_workers-is_some std config answers 0 n registry)

front_port-stop_workers :
    (p : ℕ) (ws : List Worker) → 0 < length ws → front_port p (stop_workers ws) ≡ none
unfolding stop_workers Spine.local_port
front_port-stop_workers p [] h = absurd (omega arith)
front_port-stop_workers p (w ∷ ws) h = refl

-- A gateway that has been stopped has no port to give.
pub local_port-stop :
    (p : ℕ) (g : GatewayRuntime)
    → g.started ≡ true
    → 0 < length g.workers
    → local_port p (stop g) ≡ none
unfolding local_port
local_port-stop p g on h =
    ap (λ (x : GatewayRuntime). front_port p x.workers) (stop_started g on)
    ∙ front_port-stop_workers p g.workers h
