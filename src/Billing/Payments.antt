-- ===== src/Billing/Payments.antt =====
-- Payments, refunds, voids and debts of backend/billing/service.ts: `recordSplitPayment`,
-- `refundSplitPayment`, `voidSplitPayment` and `settleDebt`, each as the body that
-- `withOperationalWrite` runs. `Ledger` holds their effect on a split's payments.
pub mod Ledger
pub mod Record
pub mod Reverse
pub mod Sound
pub mod Preserve
pub mod Outcome
pub mod Effect
