-- ===== src/Warehouse.antt =====
-- The `warehouse` package.
pub mod Lineage
pub mod TimeTravel
