-- ===== src/Quality.antt =====
-- The `quality` package.
pub mod Reconciliation
mod Tests
