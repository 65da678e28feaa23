-- ===== src/Ingestion/Loaders.antt =====
-- The `ingestion.loaders` package.
pub mod Dedup
pub mod Types
pub mod Rows
pub mod Partitions
pub mod Backfill
pub mod Incremental
pub mod IncrementalRun
pub mod RangeBackfill
mod Tests
