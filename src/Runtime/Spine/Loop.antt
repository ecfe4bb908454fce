-- ===== src/Runtime/Spine/Loop.antt =====
-- src/runtime/spine.cpp: the accept loop.
use net.Base.{ℕ, suc, Bool, not, ◌&&◌, if◌then◌else◌, List, [], ◌∷◌}
use net.Observability.Metrics.{TlsShard, record_accept}
use net.Runtime.Spine.{World, with_spine, check_executor_affinity}

-- What `async_accept` comes to.
pub data AcceptOutcome : Type 0 where
  accepted : Bool → AcceptOutcome
  operation_aborted other_error : AcceptOutcome

-- Whether the loop goes on, and whether it has handed a connection on.
pub data Accepted : Type 0 where
  spawned closed_socket ignored ended : Accepted

unfoldable pub accept_step : TlsShard → World → AcceptOutcome → World × Accepted
unfolding check_executor_affinity
accept_step tls w operation_aborted = (w, ended)
accept_step tls w other_error = if not w.spine.is_open then (w, ended) else (w, ignored)
accept_step tls w (accepted same) =
    let (s, ok) = check_executor_affinity same w.spine in
    if w.spine.config.enable_executor_affinity_checks && not ok
    then (with_spine w s, closed_socket)
    else (record w { registry = record_accept tls w.registry }, spawned)

-- What one round does to the rest of the loop and its count.
abbrev pub advance : World → Accepted → World × ℕ → World × ℕ
advance w spawned (last, n) = (last, suc n)
advance w ended rest = (w, 0)
advance w _ rest = rest

-- The loop, over what becomes of its waits; with it the number of connections handed on.
unfoldable pub accept_loop : TlsShard → World → List AcceptOutcome → World × ℕ
accept_loop tls w [] = (w, 0)
accept_loop tls w (o ∷ os) =
    let (w', what) = accept_step tls w o in advance w' what (accept_loop tls w' os)
