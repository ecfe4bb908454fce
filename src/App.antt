-- ===== src/App.antt =====
-- src/app/main.cpp: what `main` does with a gateway, from what the host answers. `hardware_concurrency`
-- gives one number each time.
pub mod Serving
pub mod Output
mod Tests
use net.Base.{ℕ, max, codes, Bool, true, false, if◌then◌else◌, Option, none, some}
use net.Routing.Trie.{StdSort}
use net.Observability.Metrics.{MetricsRegistry}
use net.Runtime.Spine.{SpineConfig, Listening}
use net.Runtime.Gateway.{
  GatewayRuntime, Launch, Built, built, refused, new_gateway, start, stop, destroy,
}

-- The answers of the host: its cores, what the acceptor of each worker and each thread come to, and
-- whether the signal set can be made.
pub record Host : Type 0 where
  pub cores : ℕ
  pub listening : ℕ → Listening
  pub launch : ℕ → Launch
  pub signals_ok : Bool

-- `main` waiting in `signal_io.run()`, or its exit code, with the gateway as its destructor leaves
-- it, if its constructor returned.
pub data Process : Type 0 where
  serving : GatewayRuntime → Process
  exited : ℕ → Option GatewayRuntime → Process

abbrev pub main_config : SpineConfig
main_config = record {
  listen_address = codes "0.0.0.0";
  listen_port = 18080;
  enable_reuse_port = true;
  enable_executor_affinity_checks = true;
}

abbrev pub workers_of : ℕ → ℕ
workers_of cores = max 1 cores

-- From the return of `runtime.start()` on, or from its exception.
pub after_start : Bool → GatewayRuntime × Bool → Process
unfolding destroy
after_start signals_ok (g, started) =
    if started
    then (if signals_ok then serving g else exited 1 (some (destroy g)))
    else exited 1 (some (destroy g))

pub run_built : Host → Built → Process
unfolding after_start start
run_built host (refused reason) = exited 1 none
run_built host (built g registry) = after_start host.signals_ok (start host.cores host.launch g)

pub begin : StdSort → Host → MetricsRegistry → Process
unfolding run_built
begin std host registry =
    run_built host (new_gateway std main_config (workers_of host.cores) host.listening registry)

-- SIGINT or SIGTERM: the handler stops the gateway, `run` returns, and the destructor stops it again.
pub on_signal : Process → Process
unfolding stop destroy
on_signal (serving g) = exited 0 (some (destroy (stop g)))
on_signal (exited code left) = exited code left
