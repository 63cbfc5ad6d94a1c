-- ===== src/Inventory.antt =====
-- Stock: backend/inventory/service.ts and repository.ts.
pub mod Types
pub mod Ledger
pub mod Balance
pub mod Master
