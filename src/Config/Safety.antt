-- ===== src/Config/Safety.antt =====
-- What threads that share a `ConfigSnapshotManager` can rely on.
use net.Base.{
  ℕ, ◌≤◌, ◌≡◌, ◌≢◌, ◌↔◌, refl, Bool, true, false, Option, none, some, get_elem?, All, le-total,
  add-le-total, All-of-total, total-of-All, ap, ℕ_discrete, arith,
}
use net.Config.{Pc, System, Reach}
use net.Config.Invariant.{bit, reads, writes, refers, holds, Register, Reach-Inv}

bit-le : (b : Bool) → bit b ≤ 1
bit-le true = omega arith
bit-le false = omega arith

-- In every state that threads reach, while one thread has the mutex exclusively (in `publish`), no
-- other has it, shared or exclusively.
pub mutual_exclusion :
    {n : ℕ} {s : System}
    → Reach n s
    → (i j : ℕ) (p q : Pc) → i ≢ j
    → get_elem? s.threads i ≡ some p
    → get_elem? s.threads j ≡ some q
    → writes p ≡ 1
    → (reads q ≡ 0) × (writes q ≡ 0)
mutual_exclusion {s = s} r i j p q ne at_i at_j w = ground (
  arith,
  exclusive,
  readers_counted,
  writers_counted,
  bit-le s.manager.writer,
  le-total reads s.threads j q at_j,
  add-le-total writes s.threads i j p q ne at_i at_j,
)
  where
    open (Reach-Inv r) use {exclusive, readers_counted, writers_counted}

refers-zero_iff : (k : ℕ) (c : Option ℕ) → (refers k c ≡ 0) ↔ (c ≢ some k)
refers-zero_iff k none = (λ h e. cc, λ h. refl)
refers-zero_iff k (some s) = (
  λ h e. ground arith,
  λ h. elim (ℕ_discrete s k) [ yes e ↦ absurd (h (ap some e)) | no n ↦ ground arith ],
)

-- In every state that threads reach, the count of references to a snapshot is 0, so that it is
-- destroyed, exactly when it is not the current snapshot and no thread has a pointer to it.
pub refs_zero_iff :
    {n : ℕ} {s : System}
    → Reach n s
    → (k : ℕ)
    → (s.manager.refs k ≡ 0) ↔ ((s.manager.current ≢ some k) × All (λ p. holds k p ≡ 0) s.threads)
refs_zero_iff {s = s} r k = (
  λ h. (
    (refers-zero_iff k _).0 (omega (arith, counted k)),
    All-of-total _ (holds k) (λ p e. e) s.threads (omega (arith, counted k)),
  ),
  λ h. omega (
    arith,
    counted k,
    (refers-zero_iff k s.manager.current).1 h.0,
    total-of-All (holds k) s.threads h.1,
  ),
)
  where
    open (Reach-Inv r) use {counted}

-- In every state that threads reach, the trace of the calls, in the order in which they give up the
-- mutex, is one of an atomic register: each `load` returns what the latest `publish` before it
-- stored, or null before the first. While no thread has the mutex exclusively, the current snapshot
-- is the register's value.
pub Reach-Register :
    {n : ℕ} {s : System}
    → Reach n s
    → (v : Option ℕ) × Register v s.trace × (s.manager.writer ≡ false → v ≡ s.manager.current)
Reach-Register r = (value, register, agrees)
  where
    open (Reach-Inv r) use {value, register, agrees}
