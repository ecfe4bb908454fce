-- ===== src/Runtime/LoopTests.antt =====
-- Turns of two connections on one worker.
use net.Base.{◌+◌, ◌%◌, ◌≡◌, refl, codes, true, some, total}
use net.Observability.Metrics.{u64_mod, new_shard, aggregate}
use net.Observability.Metrics.Totals.{requests, read, sum}
use net.Observability.Metrics.Recording.{request, added_all}
use net.Runtime.Fixtures.{get_only, world, connection}
use net.Runtime.Spine.{Connection, check_start}
use net.Runtime.Spine.Loop.{accepted, accept_step}
use net.Runtime.Spine.EventLoop.{
  turn, Loop, run_task, run_accept, record_elsewhere, Reach, start, later,
}
use net.Runtime.Spine.EventLoop.Records.{contribution}
use net.Runtime.Spine.EventLoop.Totals.{total-Reach}

abbrev root_request : Connection
root_request = connection (codes "/") true

-- Two connections are accepted, another thread records a request, the second connection reads.
two_accepted : (l : Loop get_only (some 0)) × Reach get_only (some 0) world l
unfolding accept_step
two_accepted =
    (_, later (later start (run_accept (accepted true) refl)) (run_accept (accepted true) refl))

second_reads : (l : Loop get_only (some 0)) × Reach get_only (some 0) world l
unfolding two_accepted turn check_start
second_reads = (
  _,
  later
      (later (later two_accepted.1 (record_elsewhere (some 1, request 5)))
        (run_task 1 root_request refl))
      (run_task 1 root_request refl),
)

total-Reach_example :
    read requests (aggregate new_shard second_reads.0.world.registry)
    ≡ (sum requests world.registry
        + total (contribution requests) second_reads.0.tasks
        + added_all requests world.registry second_reads.0.elsewhere)
      % u64_mod
total-Reach_example =
    total-Reach get_only (some 0) world second_reads.0 requests refl second_reads.1
