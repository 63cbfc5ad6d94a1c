-- ===== src/Billing/Editing.antt =====
-- The operations that make, reprice, rearrange, void and move a bill: backend/billing/service.ts.
pub mod Reprice
pub mod Items
pub mod Cancel
pub mod Move
pub mod Guards
pub mod Totals
