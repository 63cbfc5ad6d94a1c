-- ===== src/Billing.antt =====
-- Bills, their pricing, their splits and payments: backend/billing/service.ts and repository.ts.
pub mod Types
pub mod Pricing
pub mod Lines
pub mod Splits
pub mod Update
pub mod Devices
pub mod Access
pub mod Payments
pub mod Editing
