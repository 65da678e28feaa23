-- ===== src/Observability.antt =====
-- The `observability` package.
pub mod Builds
pub mod Freshness
pub mod ResourceGuardrails
mod Tests
