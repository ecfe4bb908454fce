-- ===== src/Runtime/Gateway/Lifecycle.antt =====
-- Starting and stopping a gateway: what its workers do in each state.
use net.Base.{
  ℕ, suc, ◌≡◌, inl, inr, refl, sym, Bool, true, false, ltb, if◌then◌else◌, List, [], ◌∷◌, length,
  All, arith, Bool-cases, subst,
}
use net.Runtime.Gateway.{
  Worker, GatewayRuntime, Launch, stop_workers, launch_all, settle, start, stop, hardware_cores,
}

-- A worker that is not running, and one whose acceptor is closed and whose event loop is stopped too.
abbrev pub IsIdle : Worker → Type 0
IsIdle w = w.is_running ≡ false

abbrev pub IsDown : Worker → Type 0
IsDown w = (w.is_running ≡ false) × (w.is_stopped ≡ true) × (w.spine.is_open ≡ false)

abbrev pub IsRunning : Worker → Type 0
IsRunning w = (w.is_running ≡ true) × (w.is_spawned ≡ true)

-- Threads run exactly while the gateway is started.
abbrev pub ThreadsOf : Bool → List Worker → Type 0
ThreadsOf true ws = All IsRunning ws
ThreadsOf false ws = All IsIdle ws

abbrev pub IsConsistent : GatewayRuntime → Type 0
IsConsistent g = ThreadsOf g.started g.workers

pub stop_workers-IsDown : (ws : List Worker) → All IsDown (stop_workers ws)
unfolding stop_workers
stop_workers-IsDown [] = tt
stop_workers-IsDown (w ∷ ws) = ((refl, refl, refl), stop_workers-IsDown ws)

IsIdle-of-IsDown : (ws : List Worker) → All IsDown ws → All IsIdle ws
IsIdle-of-IsDown [] h = tt
IsIdle-of-IsDown (w ∷ ws) h = (h.0.0, IsIdle-of-IsDown ws h.1)

-- If the loop of `start` ends without an exception all threads run.
launch_all-IsRunning :
    (launch : ℕ → Launch) (i : ℕ) (ws : List Worker)
    → (launch_all launch i ws).1 ≡ true
    → All IsRunning (launch_all launch i ws).0
unfolding launch_all
launch_all-IsRunning launch i [] h = tt
launch_all-IsRunning launch i (w ∷ ws) h = ground (arith, launch_all-IsRunning launch (suc i) ws)

-- How an attempt to start ends.
pub data Started (r : GatewayRuntime × Bool) : Type 0 where
  all_running : r.1 ≡ true → r.0.started ≡ true → All IsRunning r.0.workers → Started r
  all_down : r.1 ≡ false → r.0.started ≡ false → All IsDown r.0.workers → Started r

settle-Started :
    (g : GatewayRuntime) (r : List Worker × Bool)
    → g.started ≡ false
    → (r.1 ≡ true → All IsRunning r.0)
    → Started (settle g r)
settle-Started g (workers, true) h k = all_running refl refl (k refl)
settle-Started g (workers, false) h k = all_down refl h (stop_workers-IsDown workers)

pub start-settle :
    (cores : ℕ) (launch : ℕ → Launch) (g : GatewayRuntime)
    → g.started ≡ false
    → start cores launch g
      ≡ settle g (
          if ltb (hardware_cores cores) (length g.workers)
          then (g.workers, false)
          else launch_all launch 0 g.workers)
unfolding start
start-settle cores launch g h = elim (Bool-cases (ltb (hardware_cores cores) (length g.workers))) [
  | inl many ↦ rw (h, many) refl
  | inr few ↦ rw (h, few) refl
]

launched-IsRunning :
    (b : Bool) (launch : ℕ → Launch) (ws : List Worker)
    → (if b then (ws, false) else launch_all launch 0 ws).1 ≡ true
    → All IsRunning (if b then (ws, false) else launch_all launch 0 ws).0
launched-IsRunning true launch ws h = absurd (ground (arith, h))
launched-IsRunning false launch ws h = launch_all-IsRunning launch 0 ws h

pub start-Started :
    (cores : ℕ) (launch : ℕ → Launch) (g : GatewayRuntime)
    → g.started ≡ false
    → Started (start cores launch g)
start-Started cores launch g h = subst Started (sym (start-settle cores launch g h)) (
    settle-Started g _ h
      (launched-IsRunning (ltb (hardware_cores cores) (length g.workers)) launch g.workers))

-- What a client does with a gateway.
pub data Command : Type 0 where
  starts : ℕ → (ℕ → Launch) → Command
  stops : Command

unfoldable pub command : GatewayRuntime → Command → GatewayRuntime
unfolding start stop
command g (starts cores launch) = (start cores launch g).0
command g stops = stop g

unfoldable pub commands : GatewayRuntime → List Command → GatewayRuntime
commands g [] = g
commands g (c ∷ cs) = commands (command g c) cs

pub start-started :
    (cores : ℕ) (launch : ℕ → Launch) (g : GatewayRuntime)
    → g.started ≡ true
    → start cores launch g ≡ (g, true)
unfolding start
start-started cores launch g h = rw h refl

pub Started-IsConsistent : (r : GatewayRuntime × Bool) → Started r → IsConsistent r.0
Started-IsConsistent r (all_running ok on h) = subst (λ b. ThreadsOf b r.0.workers) (sym on) h
Started-IsConsistent r (all_down ok off h) =
    subst (λ b. ThreadsOf b r.0.workers) (sym off) (IsIdle-of-IsDown r.0.workers h)

start-IsConsistent :
    (cores : ℕ) (launch : ℕ → Launch) (g : GatewayRuntime)
    → IsConsistent g
    → IsConsistent (start cores launch g).0
start-IsConsistent cores launch g h = elim (Bool-cases g.started) [
  | inl on ↦ subst (λ r. IsConsistent r.0) (sym (start-started cores launch g on)) h
  | inr off ↦ Started-IsConsistent (start cores launch g) (start-Started cores launch g off)
]

pub stop_started :
    (g : GatewayRuntime)
    → g.started ≡ true
    → stop g ≡ record g { workers = stop_workers g.workers; started = false }
unfolding stop
stop_started g h = rw h refl

pub stop_stopped : (g : GatewayRuntime) → g.started ≡ false → stop g ≡ g
unfolding stop
stop_stopped g h = rw h refl

-- After `stop`, and so after the destructor, no thread runs.
pub stop-IsIdle :
    (g : GatewayRuntime) → IsConsistent g → ((stop g).started ≡ false) × All IsIdle (stop g).workers
stop-IsIdle g h = elim (Bool-cases g.started) [
  | inl on ↦
      subst (λ x. (x.started ≡ false) × All IsIdle x.workers) (sym (stop_started g on))
        (refl, IsIdle-of-IsDown _ (stop_workers-IsDown g.workers))
  | inr off ↦
      subst (λ x. (x.started ≡ false) × All IsIdle x.workers) (sym (stop_stopped g off))
        (off, subst (λ b. ThreadsOf b g.workers) off h)
]

command-IsConsistent :
    (g : GatewayRuntime) (c : Command) → IsConsistent g → IsConsistent (command g c)
unfolding command
command-IsConsistent g (starts cores launch) h = start-IsConsistent cores launch g h
command-IsConsistent g stops h =
    let (off, idle) = stop-IsIdle g h in subst (λ b. ThreadsOf b (stop g).workers) (sym off) idle

commands-IsConsistent :
    (g : GatewayRuntime) (cs : List Command) → IsConsistent g → IsConsistent (commands g cs)
unfolding commands
commands-IsConsistent g [] h = h
commands-IsConsistent g (c ∷ cs) h =
    commands-IsConsistent (command g c) cs (command-IsConsistent g c h)

pub stop-commands-IsIdle :
    (g : GatewayRuntime) (cs : List Command)
    → IsConsistent g
    → IsConsistent (commands g cs) × All IsIdle (stop (commands g cs)).workers
stop-commands-IsIdle g cs h =
    let same = commands-IsConsistent g cs h in (same, (stop-IsIdle (commands g cs) same).1)
