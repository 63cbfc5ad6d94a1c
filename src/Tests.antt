-- ===== src/Tests.antt =====
-- Runs of the model at concrete inputs, and each theorem applied at such an input.
pub mod Data
mod Bills
mod Payments
mod Editing
mod Floor
mod Access
mod Kitchen
mod Accounts
mod Upkeep
