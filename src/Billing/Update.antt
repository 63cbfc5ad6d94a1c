-- ===== src/Billing/Update.antt =====
-- `mergeBreakdowns`, `updateBillStateAndBreakdown`, `assertBillEditable` and the sums of
-- `buildReceiptPayload` of backend/billing/service.ts.
pub mod Laws
use restaurant_pos.Base.{
  ℕ, ◌+◌, Bool, true, false, ◌&&◌, ◌||◌, not, Option, none, some, List, [], ◌∷◌, ◌++◌, ◌==◌, ltb,
  if◌then◌else◌, some_of, every,
}
use restaurant_pos.Base.Int.{ℤ, ◌+ℤ◌}
use restaurant_pos.Base.Result.{Result, ok, err, and_then, check, bill_not_editable}
use restaurant_pos.Billing.Types.{
  Bill, BillingState, unpaid, partially_paid, paid, debt, void, is_paid, is_debt, is_void,
  is_partially_paid, Pricing, Applied, Breakdown, Split, Splits, Receipt,
}
use restaurant_pos.Billing.Splits.{amount_paid, apply_bill_level_pricing}

abbrev pub states : Splits → List BillingState
states s = s.split_a.state ∷ s.split_b.state ∷ s.split_c.state ∷ []

-- The bill's state from those of its splits.
unfoldable pub state_of : List BillingState → BillingState
state_of xs =
    if every is_paid xs
    then paid
    else if some_of is_debt xs && every (λ x. is_paid x || is_debt x) xs
    then debt
    else if some_of (λ x. is_partially_paid x || is_debt x) xs
    then partially_paid
    else unpaid

-- One promotion into the map `promotionTotals`, under its id.
unfoldable pub add_applied : List Applied → Applied → List Applied
add_applied [] x = x ∷ []
add_applied (y ∷ ys) x =
    if y.promotion == x.promotion
    then record y { amount = y.amount + x.amount } ∷ ys
    else y ∷ add_applied ys x

unfoldable pub merge_applied : List Applied → List Applied → List Applied
merge_applied totals [] = totals
merge_applied totals (x ∷ xs) = merge_applied (add_applied totals x) xs

abbrev over : (Breakdown → ℕ) → Splits → ℕ
over f s = f s.split_a.breakdown + f s.split_b.breakdown + f s.split_c.breakdown

unfoldable pub merge_breakdowns : Splits → Pricing → Breakdown
merge_breakdowns s p = record {
  subtotal = over (λ x. x.subtotal) s;
  discounts = record {
    item_level = over (λ x. x.discounts.item_level) s;
    combo = over (λ x. x.discounts.combo) s;
    happy_hour = over (λ x. x.discounts.happy_hour) s;
    bill_level = over (λ x. x.discounts.bill_level) s;
    total = over (λ x. x.discounts.total) s;
  };
  taxable_subtotal = over (λ x. x.taxable_subtotal) s;
  tax_mode = p.tax_mode;
  tax_rate = p.tax_rate;
  tax_total = over (λ x. x.tax_total) s;
  service_total = over (λ x. x.service_total) s;
  service_rate = p.service_rate;
  service_enabled = p.service_enabled;
  total_due = over (λ x. x.total_due) s;
  applied =
      merge_applied [] (
        s.split_a.breakdown.applied
        ++ (s.split_b.breakdown.applied ++ s.split_c.breakdown.applied));
  lines = s.split_a.breakdown.lines ++ (s.split_b.breakdown.lines ++ s.split_c.breakdown.lines);
}

-- The sums of the receipt; its texts are presentation.
unfoldable pub build_receipt : Bill → Receipt
build_receipt b = record {
  total_paid =
      amount_paid b.splits.split_a.payments
      +ℤ amount_paid b.splits.split_b.payments
      +ℤ amount_paid b.splits.split_c.payments;
  balance_due =
      b.splits.split_a.unpaid_balance + b.splits.split_b.unpaid_balance
      + b.splits.split_c.unpaid_balance;
  breakdown = b.breakdown;
}

unfoldable pub with_receipt : Bill → Bill
with_receipt b = record b { receipt = some (build_receipt b) }

-- `updateBillStateAndBreakdown`, at the time `now`
unfoldable pub update_bill : ℕ → Bill → Result Bill
unfolding with_receipt
update_bill now b = and_then (apply_bill_level_pricing b.pricing b.splits) λ s. ok (
    with_receipt (record b {
      splits = s;
      state = state_of (states s);
      breakdown = merge_breakdowns s b.pricing;
      updated_at = now;
    }))

abbrev pub has_payments : Split → Bool
has_payments s = elim s.payments [ [] ↦ false | _ ∷ _ ↦ true ]

-- The test of `assertBillEditable` on a bill that is there.
unfoldable pub is_editable : Bill → Bool
is_editable b = not (
    (is_debt b.state || is_void b.state)
    || ((is_paid b.state && ltb 0 b.breakdown.total_due)
        || some_of (λ s. has_payments s || is_debt s.state)
            (b.splits.split_a ∷ b.splits.split_b ∷ b.splits.split_c ∷ [])))

unfoldable pub assert_bill_editable : Option Bill → Result (Unit {0})
assert_bill_editable none = ok tt
assert_bill_editable (some b) = check (is_editable b) bill_not_editable
