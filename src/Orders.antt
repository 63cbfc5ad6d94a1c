-- ===== src/Orders.antt =====
-- Orders: backend/orders/repository.ts and service.ts.
pub mod Types
pub mod Update
pub mod Deduct
pub mod Transition
pub mod Cancel
pub mod Laws
pub mod Stored
pub mod Guarded
pub mod Life
pub mod Once
pub mod Build
pub mod Create
pub mod Edit
pub mod Built
pub mod Priced
pub mod Prices
pub mod Spared
pub mod Edited
pub mod Delivered
