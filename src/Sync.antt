-- ===== src/Sync.antt =====
-- How two sides of a store agree on the menu: backend/sync/service.ts.
pub mod Versions
pub mod Order
pub mod Converge
