-- ===== src/Runtime.antt =====
-- src/runtime and include/netp2/runtime.
pub mod Responses
pub mod Spine
pub mod Gateway
mod Fixtures
mod Tests
mod LoopTests
