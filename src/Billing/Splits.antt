-- ===== src/Billing/Splits.antt =====
-- Pricing a bill over its three splits: `calculateLineDiscountBreakdown`, `applyBillLevelPricing` and
-- `getPaymentContribution` of backend/billing/service.ts.
pub mod Defs
pub mod Totals
pub mod Balance
pub mod Whole
unfoldable pub use Defs.*
