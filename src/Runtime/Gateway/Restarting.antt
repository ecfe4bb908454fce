-- ===== src/Runtime/Gateway/Restarting.antt =====
-- What becomes of a gateway of src/runtime/gateway_runtime.cpp that is started again after `stop`.
use net.Base.{
  ℕ, suc, ◌≡◌, sym, Bool, true, false, ltb, if◌then◌else◌, List, [], ◌∷◌, length, All, arith,
  Bool-cases, inl, inr, subst,
}
use net.Runtime.Gateway.{Worker, GatewayRuntime, Launch, launch_all, settle, stop, hardware_cores}
use net.Runtime.Gateway.Lifecycle.{
  Command, starts, stops, command, commands, start-started, start-settle, stop_started,
  stop_stopped, stop_workers-IsDown, IsDown,
}

-- A worker that can serve nothing: its event loop has been stopped, and its acceptor is closed.
abbrev pub IsClosed : Worker → Type 0
IsClosed w = (w.is_stopped ≡ true) × (w.spine.is_open ≡ false)

IsClosed-of-IsDown : (ws : List Worker) → All IsDown ws → All IsClosed ws
IsClosed-of-IsDown [] h = tt
IsClosed-of-IsDown (w ∷ ws) h = ((h.0.1, h.0.2), IsClosed-of-IsDown ws h.1)

launch_all-IsClosed :
    (launch : ℕ → Launch) (i : ℕ) (ws : List Worker)
    → All IsClosed ws
    → All IsClosed (launch_all launch i ws).0
unfolding launch_all
launch_all-IsClosed launch i [] h = tt
launch_all-IsClosed launch i (w ∷ ws) h =
    ground (arith, launch_all-IsClosed launch (suc i) ws h.1, h.0, h.1)

settle-IsClosed :
    (g : GatewayRuntime) (r : List Worker × Bool)
    → All IsClosed r.0
    → All IsClosed (settle g r).0.workers
settle-IsClosed g (workers, true) h = h
settle-IsClosed g (workers, false) h = IsClosed-of-IsDown _ (stop_workers-IsDown workers)

either-IsClosed :
    (b : Bool) (launch : ℕ → Launch) (ws : List Worker)
    → All IsClosed ws
    → All IsClosed (if b then (ws, false) else launch_all launch 0 ws).0
either-IsClosed true launch ws h = h
either-IsClosed false launch ws h = launch_all-IsClosed launch 0 ws h

command-IsClosed :
    (g : GatewayRuntime) (c : Command) → All IsClosed g.workers → All IsClosed (command g c).workers
unfolding command
command-IsClosed g (starts cores launch) h = elim (Bool-cases g.started) [
  | inl on ↦ subst (λ r. All IsClosed r.0.workers) (sym (start-started cores launch g on)) h
  | inr off ↦
      subst (λ r. All IsClosed r.0.workers) (sym (start-settle cores launch g off))
        (settle-IsClosed g _
          (either-IsClosed (ltb (hardware_cores cores) (length g.workers)) launch g.workers h))
]
command-IsClosed g stops h = elim (Bool-cases g.started) [
  | inl on ↦
      subst (λ x. All IsClosed x.workers) (sym (stop_started g on))
        (IsClosed-of-IsDown _ (stop_workers-IsDown g.workers))
  | inr off ↦ subst (λ x. All IsClosed x.workers) (sym (stop_stopped g off)) h
]

commands-IsClosed :
    (g : GatewayRuntime) (cs : List Command)
    → All IsClosed g.workers
    → All IsClosed (commands g cs).workers
unfolding commands
commands-IsClosed g [] h = h
commands-IsClosed g (c ∷ cs) h = commands-IsClosed (command g c) cs (command-IsClosed g c h)

-- Once a started gateway is stopped, no worker ever has an open acceptor or an event loop that is not
-- stopped again, whatever starts and stops follow, those that succeed included.
pub commands-stop-IsClosed :
    (g : GatewayRuntime) (cs : List Command)
    → g.started ≡ true
    → All IsClosed (commands (stop g) cs).workers
commands-stop-IsClosed g cs on = commands-IsClosed (stop g) cs (
    subst (λ x. All IsClosed x.workers) (sym (stop_started g on))
      (IsClosed-of-IsDown _ (stop_workers-IsDown g.workers)))
