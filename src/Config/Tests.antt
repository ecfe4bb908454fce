-- ===== src/Config/Tests.antt =====
-- Two threads that share a `ConfigSnapshotManager`: one publishes snapshot 7, the other loads it.
use net.Base.{
  ◌≤◌, ◌<◌, ◌⊎◌, total, ℕ, ◌≡◌, ◌≢◌, ◌↔◌, refl, false, Option, some, [], ◌∷◌, All, arith,
}
use net.Config.{
  new_manager, can_lock, can_lock_shared, store_current, copy_current, writing, asking, published,
  loaded, call_publish, lock, write, unlock, call_load, lock_shared, copy, unlock_shared, System,
  pick, Reach, start, later,
}
use net.Config.Invariant.{reads, writes, holds, Register}
use net.Config.Safety.{mutual_exclusion, refs_zero_iff, Reach-Register}
use net.Config.Progress.{
  in_call, CanMove, pick_call, Calls, no_move, next_move, remaining, Calls-finish,
}

-- The second thread waits while the first has the lock.
contended : (s : System) × Reach 2 s
unfolding new_manager can_lock
contended = (
  _,
  later (later (later start (pick 1 refl call_load)) (pick 0 refl (call_publish (some 7))))
      (pick 0 refl (lock refl)),
)

stored : (s : System) × Reach 2 s
unfolding contended new_manager store_current
stored = (_, later contended.1 (pick 0 refl write))

-- The second thread uses what the first has published.
after_load : (s : System) × Reach 2 s
unfolding contended stored new_manager can_lock can_lock_shared store_current copy_current
after_load =
    let free = later stored.1 (pick 0 refl unlock) in
    let shared = later (later free (pick 1 refl (lock_shared refl))) (pick 1 refl copy) in
    (_, later shared (pick 1 refl unlock_shared))

after_load-trace : after_load.0.trace ≡ loaded (some 7) ∷ published (some 7) ∷ []
unfolding after_load
after_load-trace = refl

mutual_exclusion_example : (reads asking ≡ 0) × (writes asking ≡ 0)
unfolding contended
mutual_exclusion_example =
    mutual_exclusion contended.1 0 1 (writing (some 7)) asking (omega arith) refl refl refl

refs_zero_iff_example :
    (after_load.0.manager.refs 7 ≡ 0)
    ↔ ((after_load.0.manager.current ≢ some 7) × All (λ p. holds 7 p ≡ 0) after_load.0.threads)
refs_zero_iff_example = refs_zero_iff after_load.1 7

Reach-Register_example :
    (v : Option ℕ) × Register v after_load.0.trace
    × (after_load.0.manager.writer ≡ false → v ≡ after_load.0.manager.current)
Reach-Register_example = Reach-Register after_load.1

one_call : Calls contended.0 1 stored.0
unfolding contended stored
one_call = next_move no_move (pick_call 0 refl refl write)

Calls-finish_example :
    (1 ≤ total remaining contended.0.threads)
    × ((1 ≡ total remaining contended.0.threads × All (λ p. in_call p ≡ false) stored.0.threads)
        ⊎ (1 < total remaining contended.0.threads × CanMove stored.0))
Calls-finish_example = Calls-finish contended.1 one_call
