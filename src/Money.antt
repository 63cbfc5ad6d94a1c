-- ===== src/Money.antt =====
-- Monetary arithmetic of backend/billing/service.ts: rounding, capped discounts, rates and the
-- largest-remainder allocation. Money at rest is a number of cents; a raw input is a signed number
-- of tenths of a cent, which `round2` takes to cents.
mod Defs
pub mod Bounds
pub mod Allocate
unfoldable pub use Defs.*
