-- ===== src/Config/Invariant.antt =====
-- What the threads that share a `ConfigSnapshotManager` keep true, and that each of their moves
-- keeps it.
mod Defs
mod Moves
pub use Defs.{bit, reads, writes, refers, holds, Register, new, put, get, Inv}
pub use Moves.{Reach-Inv}
