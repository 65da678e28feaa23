-- ===== src/Ingestion/Sources.antt =====
-- The `ingestion.sources` package: clients of providers' HTTP interfaces.
pub mod Retries
pub mod HttpJson
pub mod Tiingo
pub mod Tests
