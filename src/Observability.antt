-- ===== src/Observability.antt =====
-- src/observability and include/netp2/observability.
pub mod Metrics
mod Tests
