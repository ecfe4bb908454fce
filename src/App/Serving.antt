-- ===== src/App/Serving.antt =====
-- When `main` serves, and how it ends.
use net.Base.{
  ℕ, ◌≡◌, refl, sym, ap, ◌∙◌, subst, length, Bool, true, false, ◌&&◌, leb, if◌then◌else◌, [], ◌∷◌,
  All, none, some, arith,
}
use net.Routing.Trie.{StdSort}
use net.Observability.Metrics.{MetricsRegistry}
use net.Runtime.Gateway.{
  GatewayRuntime, Built, built, new_gateway, hardware_cores, start, stop, destroy,
}
use net.Runtime.Gateway.Lifecycle.{
  IsIdle, IsRunning, Started, all_running, all_down, start-Started, Started-IsConsistent,
  stop-IsIdle, ThreadsOf, stops, command, commands, stop-commands-IsIdle,
}
use net.Runtime.Gateway.Answers.{
  all_from, listens, launches, is_built, start-ok, length-start, new_gateway-is_built,
}
use net.Runtime.Gateway.Building.{
  Builds, zero_workers, shared_port, spine_fails, made, new_gateway-Builds,
}
use net.App.{
  Host, Process, serving, exited, main_config, workers_of, after_start, run_built, begin, on_signal,
}

-- Whether the host agrees to all that `main` asks of it.
abbrev pub agreed : Host → Bool
agreed host =
    all_from (λ k. listens main_config (host.listening k)) 0 (workers_of host.cores)
    && all_from (λ k. launches (host.launch k)) 0 (workers_of host.cores)
    && host.signals_ok

pub data Begins (host : Host) (p : Process) : Type 0 where
  serves :
      (g : GatewayRuntime)
      → p ≡ serving g
      → agreed host ≡ true
      → g.started ≡ true
      → length g.workers ≡ workers_of host.cores
      → All IsRunning g.workers
      → Begins host p
  not_built : p ≡ exited 1 none → agreed host ≡ false → Begins host p
  torn_down :
      (g : GatewayRuntime)
      → p ≡ exited 1 (some g)
      → agreed host ≡ false
      → All IsIdle g.workers
      → Begins host p

enough_cores : (cores : ℕ) → leb (workers_of cores) (hardware_cores cores) ≡ true
enough_cores cores = ground arith

-- Leaving `main` by an exception destroys the gateway.
left_behind :
    (host : Host) (r : GatewayRuntime × Bool)
    → Started r
    → agreed host ≡ false
    → Begins host (exited 1 (some (destroy r.0)))
unfolding destroy
left_behind host r h no_way =
    torn_down (destroy r.0) refl no_way (stop-IsIdle r.0 (Started-IsConsistent r h)).1

after_start-Begins :
    (host : Host) (signals_ok : Bool) (r : GatewayRuntime × Bool)
    → host.signals_ok ≡ signals_ok
    → Started r
    → length r.0.workers ≡ workers_of host.cores
    → agreed host ≡ (r.1 && host.signals_ok)
    → Begins host (after_start signals_ok r)
unfolding after_start
after_start-Begins host true (g, true) s (all_running e on h) n a =
    serves g refl (ground (arith, s, a)) on n h
after_start-Begins host true (g, true) s (all_down e off h) n a = cc
after_start-Begins host false (g, true) s h n a =
    left_behind host (g, true) h (ground (arith, s, a))
after_start-Begins host signals_ok (g, false) s h n a = left_behind host (g, false) h a

run_built-Begins :
    (host : Host) (g : GatewayRuntime) (registry : MetricsRegistry)
    → g.started ≡ false
    → length g.workers ≡ workers_of host.cores
    → all_from (λ k. listens main_config (host.listening k)) 0 (workers_of host.cores) ≡ true
    → Begins host (run_built host (built g registry))
unfolding run_built
run_built-Begins host g registry off n ok =
    after_start-Begins host host.signals_ok (start host.cores host.launch g) refl
      (start-Started host.cores host.launch g off) (length-start host.cores host.launch g off ∙ n)
      (rw ok (ap (λ b. b && host.signals_ok) (sym ready)))
  where
    ready :
        (start host.cores host.launch g).1
        ≡ all_from (λ k. launches (host.launch k)) 0 (workers_of host.cores)
    ready =
        start-ok host.cores host.launch g off
        ∙ ap
            (λ (k : ℕ).
              leb k (hardware_cores host.cores) && all_from (λ k. launches (host.launch k)) 0 k)
            n
        ∙ ap (λ b. b && all_from (λ k. launches (host.launch k)) 0 (workers_of host.cores))
            (enough_cores host.cores)

-- What the constructor's answer says of the acceptors.
listened :
    (std : StdSort) (host : Host) (registry : MetricsRegistry)
    → is_built (new_gateway std main_config (workers_of host.cores) host.listening registry)
      ≡ all_from (λ k. listens main_config (host.listening k)) 0 (workers_of host.cores)
listened std host registry =
    new_gateway-is_built std main_config (workers_of host.cores) host.listening registry
      (ground arith) (ground arith)

built-Begins :
    (host : Host) (registry : MetricsRegistry) (b : Built)
    → Builds main_config (workers_of host.cores) registry b
    → is_built b ≡ all_from (λ k. listens main_config (host.listening k)) 0 (workers_of host.cores)
    → Begins host (run_built host b)
unfolding run_built
built-Begins host registry b (zero_workers n e) l = absurd (omega arith)
built-Begins host registry b (shared_port n p e) l = absurd (omega arith)
built-Begins host registry b (spine_fails n p e) l =
    subst (λ b. Begins host (run_built host b)) (sym e)
      (not_built refl (ground (arith, sym l ∙ ap is_built e)))
built-Begins host registry b (made n p ws registry' size new next e) l =
    subst (λ b. Begins host (run_built host b)) (sym e)
      (run_built-Begins host _ registry' refl size (sym l ∙ ap is_built e))

-- Whatever the host answers, `main` either serves, with a running thread for each core it is told
-- of, one if it is told of none, or it has ended with exit code 1 and no thread runs; and it serves
-- exactly if every worker's acceptor can be opened, bound and set to listen, every thread made and
-- bound, and the signals waited for.
pub begin-Begins :
    (std : StdSort) (host : Host) (registry : MetricsRegistry)
    → Begins host (begin std host registry)
unfolding begin
begin-Begins std host registry =
    built-Begins host registry _
      (new_gateway-Builds std main_config (workers_of host.cores) host.listening registry)
      (listened std host registry)

-- A process that has ended, with no thread of its gateway running.
pub data Exits (code : ℕ) (p : Process) : Type 0 where
  unbuilt : p ≡ exited code none → Exits code p
  torn : (g : GatewayRuntime) → p ≡ exited code (some g) → All IsIdle g.workers → Exits code p

stopped_twice :
    (g : GatewayRuntime)
    → g.started ≡ true
    → All IsRunning g.workers
    → All IsIdle (destroy (stop g)).workers
unfolding commands command destroy
stopped_twice g on h =
    (stop-commands-IsIdle g (stops ∷ []) (subst (λ b. ThreadsOf b g.workers) (sym on) h)).1

on_signal-Exits :
    (host : Host) (p : Process) → Begins host p → Exits (if agreed host then 0 else 1) (on_signal p)
unfolding on_signal
on_signal-Exits host p begun = elim begun [
  | serves g e yes_way on n h ↦
      with_code yes_way (torn (destroy (stop g)) (ap on_signal e) (stopped_twice g on h))
  | not_built e no_way ↦ with_code no_way (unbuilt (ap on_signal e))
  | torn_down g e no_way h ↦ with_code no_way (torn g (ap on_signal e) h)
]
  where
    with_code :
        {b : Bool}
        → agreed host ≡ b
        → Exits (if b then 0 else 1) (on_signal p)
        → Exits (if agreed host then 0 else 1) (on_signal p)
    with_code e = subst (λ b. Exits (if b then 0 else 1) (on_signal p)) (sym e)

-- Whatever the host answers, by the first SIGINT or SIGTERM `main` has ended and no thread runs;
-- its exit code is 0 if the host agreed to all that `main` asked of it, and else 1.
pub begin-Exits :
    (std : StdSort) (host : Host) (registry : MetricsRegistry)
    → Exits (if agreed host then 0 else 1) (on_signal (begin std host registry))
begin-Exits std host registry = on_signal-Exits host _ (begin-Begins std host registry)
