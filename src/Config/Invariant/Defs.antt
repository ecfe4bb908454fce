-- ===== src/Config/Invariant/Defs.antt =====
-- The counts of the threads, and the atomic register that the manager stands for.
use net.Base.{
  ℕ, ◌+◌, ◌≡◌, Bool, true, false, ◌==◌, if◌then◌else◌, Option, none, some, List, [], ◌∷◌, All,
  total,
}
use net.Config.{
  Manager, Pc, entering, writing, written, reading, copied, using, Event, published, loaded,
}

abbrev pub bit : Bool → ℕ
bit true = 1
bit false = 0

-- The lock that a thread has.
abbrev pub reads : Pc → ℕ
reads reading = 1
reads (copied _) = 1
reads _ = 0

abbrev pub writes : Pc → ℕ
writes (writing _) = 1
writes (written _) = 1
writes _ = 0

-- References to snapshot `k`: of a pointer, and of a thread.
abbrev pub refers : ℕ → Option ℕ → ℕ
refers k none = 0
refers k (some s) = if s == k then 1 else 0

abbrev pub holds : ℕ → Pc → ℕ
holds k (entering s) = refers k s
holds k (writing s) = refers k s
holds k (copied s) = refers k s
holds k (using s) = refers k s
holds k _ = 0

-- What a thread with the lock knows of the current snapshot.
abbrev pub IsFresh : Option ℕ → Pc → Type 0
IsFresh c (written s) = c ≡ s
IsFresh c (copied s) = c ≡ s
IsFresh c _ = Unit

-- A register with atomic operations: its value after a trace, the latest event first.
pub data Register : Option ℕ → List Event → Type 0 where
  new : Register none []
  put : {v s : Option ℕ} {t : List Event} → Register v t → Register s (published s ∷ t)
  get : {v : Option ℕ} {t : List Event} → Register v t → Register v (loaded v ∷ t)

pub record Inv (m : Manager) (threads : List Pc) (trace : List Event) : Type 0 where
  pub exclusive : m.writer ≡ true → m.readers ≡ 0
  pub readers_counted : m.readers ≡ total reads threads
  pub writers_counted : bit m.writer ≡ total writes threads
  pub counted : (k : ℕ) → m.refs k ≡ refers k m.current + total (holds k) threads
  pub fresh : All (IsFresh m.current) threads
  pub value : Option ℕ
  pub register : Register value trace
  pub agrees : m.writer ≡ false → value ≡ m.current
