-- ===== src/Menu.antt =====
-- The menu: backend/menu/repository.ts, service.ts and bulkImport.
pub mod Types
pub mod Price
pub mod Doubles
pub mod Repository
pub mod Admin
pub mod Items
pub mod Unique
pub mod Keeps
pub mod Operations
pub mod Changes
pub mod Runs
pub mod Deleted
pub mod Bulk
