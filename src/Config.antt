-- ===== src/Config.antt =====
-- include/netp2/config/config_snapshot.h: `ConfigSnapshotManager`, called by any number of threads
-- whose shared accesses interleave. A snapshot is known by a number, a `shared_ptr` is `none` where
-- it is null, and `std::shared_mutex` is what the standard says of it: one owner, or any number of
-- readers.
pub mod Invariant
pub mod Progress
pub mod Safety
mod Tests
use net.Base.{
  ℕ, zero, suc, ◌+◌, ◌-◌, ◌≡◌, Bool, true, false, not, ◌&&◌, ◌==◌, if◌then◌else◌, Option, none,
  some, List, [], ◌∷◌, ◌++◌, get_elem?, set,
}

-- `mutex_` is the two fields `writer` and `readers`. `refs` counts the references that the manager and
-- the threads of the model hold to each snapshot, as its control block does.
pub record Manager : Type 0 where
  pub writer : Bool
  pub readers : ℕ
  pub current : Option ℕ
  pub refs : ℕ → ℕ

unfoldable pub new_manager : Manager
new_manager = record { writer = false; readers = 0; current = none; refs = λ k. 0 }

-- A copy of a `shared_ptr`, and its destruction.
unfoldable pub retain : Option ℕ → (ℕ → ℕ) → ℕ → ℕ
retain none refs k = refs k
retain (some s) refs k = if s == k then refs k + 1 else refs k

unfoldable pub drop_ref : Option ℕ → (ℕ → ℕ) → ℕ → ℕ
drop_ref none refs k = refs k
drop_ref (some s) refs k = if s == k then refs k - 1 else refs k

-- When `unique_lock` and when `shared_lock` get the mutex.
pub can_lock : Manager → Bool
can_lock m = not m.writer && m.readers == 0

pub can_lock_shared : Manager → Bool
can_lock_shared m = not m.writer

-- `current_ = std::move(snapshot)`: the old snapshot loses the manager's reference, and the new one's
-- reference passes from the argument to the manager.
pub store_current : Option ℕ → Manager → Manager
unfolding drop_ref
store_current s m = record m { current = s; refs = drop_ref m.current m.refs }

-- `return current_`: the caller's reference is one more.
pub copy_current : Manager → Manager
unfolding retain
copy_current m = record m { refs = retain m.current m.refs }

-- Where a thread stands, with the `shared_ptr` that it has there.
pub data Pc : Type 0 where
  idle : Pc
  entering : Option ℕ → Pc  -- in `publish`, before the lock
  writing : Option ℕ → Pc  -- with the lock, before the assignment
  written : Option ℕ → Pc  -- after the assignment, before the unlock
  asking : Pc  -- in `load`, before the lock
  reading : Pc  -- with the lock, before the copy
  copied : Option ℕ → Pc  -- after the copy, before the unlock
  using : Option ℕ → Pc  -- after `load`, with its result

-- What a call has done when it gives up the lock.
pub data Event : Type 0 where
  published : Option ℕ → Event
  loaded : Option ℕ → Event

-- One shared access of one thread, and what it adds to the trace. An idle thread may publish any
-- snapshot or load, and a thread that has loaded lets its snapshot go when it likes.
pub data Move (m : Manager) : Pc → Manager → Pc → List Event → Type 0 where
  call_publish : (s : Option ℕ) → Move m idle (record m { refs = retain s m.refs }) (entering s) []
  lock :
      {s : Option ℕ}
      → can_lock m ≡ true
      → Move m (entering s) (record m { writer = true }) (writing s) []
  write : {s : Option ℕ} → Move m (writing s) (store_current s m) (written s) []
  unlock : {s : Option ℕ} → Move m (written s) (record m { writer = false }) idle (published s ∷ [])
  call_load : Move m idle m asking []
  lock_shared :
      can_lock_shared m ≡ true → Move m asking (record m { readers = m.readers + 1 }) reading []
  copy : Move m reading (copy_current m) (copied m.current) []
  unlock_shared :
      {s : Option ℕ}
      → Move m (copied s) (record m { readers = m.readers - 1 }) (using s) (loaded s ∷ [])
  release : {s : Option ℕ} → Move m (using s) (record m { refs = drop_ref s m.refs }) idle []

-- The manager, the threads, and the trace, its latest event first.
pub record System : Type 0 where
  pub manager : Manager
  pub threads : List Pc
  pub trace : List Event

pub data Step (s : System) : System → Type 0 where
  pick :
      (i : ℕ) {p p' : Pc} {m : Manager} {events : List Event}
      → get_elem? s.threads i ≡ some p
      → Move s.manager p m p' events
      → Step s (record { manager = m; threads = set s.threads i p'; trace = events ++ s.trace })

abbrev pub all_idle : ℕ → List Pc
all_idle zero = []
all_idle (suc n) = idle ∷ all_idle n

-- What `n` threads that share a new manager come to.
pub data Reach (n : ℕ) : System → Type 0 where
  start : Reach n (record { manager = new_manager; threads = all_idle n; trace = [] })
  later : {s t : System} → Reach n s → Step s t → Reach n t
