-- ===== src/Ingestion.antt =====
-- The `ingestion` package.
pub mod Values
pub mod Contracts
pub mod Normalizers
pub mod Ordering
pub mod Datasets
pub mod Checkpoints
pub mod Loaders
pub mod Lake
pub mod Compaction
pub mod Streaming
pub mod Sources
