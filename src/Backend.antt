-- ===== src/Backend.antt =====
-- The `backend` package.
pub mod Cache
mod Tests
