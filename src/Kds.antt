-- ===== src/Kds.antt =====
-- The kitchen display: backend/kds/repository.ts and service.ts.
pub mod Types
pub mod Board
pub mod Snapshot
pub mod Tickets
pub mod Grouped
pub mod Steps
pub mod Items
pub mod Laws
