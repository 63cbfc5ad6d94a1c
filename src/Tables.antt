-- ===== src/Tables.antt =====
-- Dining tables and their sessions: backend/tables/repository.ts and service.ts.
pub mod Types
pub mod Access
pub mod Sessions
pub mod Laws
pub mod Closing
pub mod Transfer
pub mod Floor
pub mod Destination
pub mod Transferred
pub mod Moved
