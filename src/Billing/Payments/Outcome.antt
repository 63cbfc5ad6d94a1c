-- ===== src/Billing/Payments/Outcome.antt =====
-- What the payment operations leave in the store, on every branch.
pub mod Refund
pub mod Void
pub mod Record
pub mod Keep
use restaurant_pos.Base.{
  ℕ, ◌+◌, ◌≡◌, refl, Bool, true, false, not, Option, none, some, List, [], ◌∷◌, ◌++◌, arith, subst,
  sym, ◌∙◌, ◌≤◌, inl, inr, ◌⊎◌, Bool-cases, Option-cases,
}
use restaurant_pos.Base.Table.{get, put, get-put_self}
use restaurant_pos.Base.Int.{ℤ, pos, pos_part, neg_part, ltb_ℤ}
use restaurant_pos.Base.Text.{trim}
use restaurant_pos.Base.Result.{
  Result, ok, err, check, or_error, Result-cases, amount_not_positive, Error, bill_not_found,
  reason_required, payment_not_found,
}
use restaurant_pos.Money.{round2}
use restaurant_pos.Store.{Store, M, lift, ◌>>=◌, >>=-eq-ok}
use restaurant_pos.Billing.Types.{
  Bill, Split, Splits, SplitLabel, a, b, c, Payment, Reference, split_of, is_external,
}
use restaurant_pos.Billing.Update.{update_bill, with_receipt}
use restaurant_pos.Billing.Update.Laws.{update_bill-eq-ok, repriced, NotOverdrawn}
use restaurant_pos.Billing.Splits.Balance.{apply_bill_level_pricing-ArePriced, ArePriced, IsPriced}
use restaurant_pos.Billing.Devices.{Devices, Request}
use restaurant_pos.Billing.Access.{load_bill, save_bill, append_billing_audit, record_audit_event}
use restaurant_pos.Billing.Payments.Ledger.{
  find_payment, refunded_of, check_refund, check_void, mark_voided, refund_entry, void_entry,
}
use restaurant_pos.Billing.Payments.Reverse.{
  ReversalInput, refund_split_payment, void_split_payment, pay_back, void_at_terminal,
  with_payments, is_blank, request_of,
}
use restaurant_pos.Billing.Payments.Sound.{Sound, Sound-nonneg}
use restaurant_pos.Billing.Payments.Preserve.Refund.{refund_entry-Sound}
use restaurant_pos.Billing.Payments.Preserve.Void.{void_entry-Sound}

-- Each split's ledger is sound.
pub record Settleable (s : Splits) : Type 0 where
  pub split_a : Sound s.split_a.payments
  pub split_b : Sound s.split_b.payments
  pub split_c : Sound s.split_c.payments

-- A repricing keeps the payments.
pub update_bill-Settleable :
    (now : ℕ) (x y : Bill) → update_bill now x ≡ ok y → Settleable x.splits → Settleable y.splits
unfolding with_receipt
update_bill-Settleable now x y h sound =
    let (s, priced, same) = update_bill-eq-ok now x y h in
    let each = apply_bill_level_pricing-ArePriced x.pricing x.splits s priced in
    subst (λ v. Settleable v.splits) same
      (record {
        split_a = subst Sound (sym each.split_a.payments) sound.split_a;
        split_b = subst Sound (sym each.split_b.payments) sound.split_b;
        split_c = subst Sound (sym each.split_c.payments) sound.split_c;
      })

pub with_payments-Settleable :
    (x : Bill) (l : SplitLabel) (ps : List Payment)
    → Settleable x.splits
    → (Sound (split_of x.splits l).payments → Sound ps)
    → Settleable (with_payments x l ps).splits
with_payments-Settleable x a ps s f = record {
  split_a = f s.split_a;
  split_b = s.split_b;
  split_c = s.split_c;
}
with_payments-Settleable x b ps s f = record {
  split_a = s.split_a;
  split_b = f s.split_b;
  split_c = s.split_c;
}
with_payments-Settleable x c ps s f = record {
  split_a = s.split_a;
  split_b = s.split_b;
  split_c = f s.split_c;
}

-- The operation failed, and no bill changed.
abbrev pub Refused : Store → Result Bill × Store → Type 0
Refused s r = (e : Error) × (r.0 ≡ err e) × (r.1.bills ≡ s.bills)
