-- ===== src/App/Output.antt =====
-- What src/app/main.cpp prints. The text that an exception carries is an argument.
use net.Base.{ℕ, Text, codes, to_string, length, [], ◌∷◌, ◌++◌, All, Option}
use net.Routing.Trie.{StdSort}
use net.Observability.Metrics.{MetricsRegistry}
use net.Runtime.Spine.{SpineConfig}
use net.Runtime.Gateway.{GatewayRuntime}
use net.Runtime.Gateway.Lifecycle.{IsRunning}
use net.App.{Host, Process, serving, exited, main_config, workers_of, begin}

-- include/netp2/core/version.h
abbrev pub version : Text
version = codes "0.1.0"

abbrev pub listening_line : SpineConfig → ℕ → Text
listening_line config workers =
    codes "netp2 gateway phase-b-step1 "
    ++ version
    ++ codes " workers="
    ++ to_string workers
    ++ codes " listening on "
    ++ config.listen_address
    ++ b':' ∷ to_string config.listen_port
    ++ 10 ∷ []

abbrev pub fatal_line : Text → Text
fatal_line what = codes "fatal: " ++ what ++ 10 ∷ []

-- Standard output and standard error, up to `signal_io.run()` or the return.
pub record Printed : Type 0 where
  pub out : Text
  pub err : Text

abbrev pub printed : Text → ℕ → Process → Printed
printed what workers (serving g) = record { out = listening_line main_config workers; err = [] }
printed what workers (exited code left) = record { out = []; err = fatal_line what }

unfoldable pub run_main : StdSort → Host → Text → MetricsRegistry → Process × Printed
unfolding begin
run_main std host what registry =
    let p = begin std host registry in (p, printed what (workers_of host.cores) p)

-- A line that tells how many threads run, or the line of the exception.
pub data Reports (what : Text) : Process × Printed → Type 0 where
  tells :
      (g : GatewayRuntime)
      → All IsRunning g.workers
      → Reports what
          (serving g, record { out = listening_line main_config (length g.workers); err = [] })
  fails :
      (left : Option GatewayRuntime)
      → Reports what (exited 1 left, record { out = []; err = fatal_line what })
