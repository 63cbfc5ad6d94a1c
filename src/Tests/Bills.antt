-- ===== src/Tests/Bills.antt =====
-- Pricing at concrete inputs.
use restaurant_pos.Base.{◌+◌, ◌≤◌, ◌≡◌, refl, ◌↔◌, true, [], ◌∷◌, sum, get_or, length, arith}
use restaurant_pos.Base.Result.{ok}
use restaurant_pos.Money.{round2}
use restaurant_pos.Money.Allocate.{allocate_amount}
use restaurant_pos.Money.Allocate.Conserve.{allocate_amount-sum}
use restaurant_pos.Money.Allocate.Bound.{allocate_amount-le}
use restaurant_pos.Billing.Types.{Splits, paid}
use restaurant_pos.Billing.Pricing.{apply_promotions, amounts, or_default}
use restaurant_pos.Billing.Splits.{
  apply_bill_level_pricing, charges_on, bases, Charges, next_state, balance,
}
use restaurant_pos.Billing.Splits.Totals.{apply_bill_level_pricing-Conserves, Conserves}
use restaurant_pos.Billing.Splits.Whole.{split_due-eq-whole_due, split_due, whole_due, all_lines}
use restaurant_pos.Billing.Lines.{calculate_line_item}
use restaurant_pos.Billing.Lines.Laws.{calculate_line_item-IsLine}
use restaurant_pos.Billing.Update.{update_bill, build_receipt, state_of}
use restaurant_pos.Billing.Update.Laws.{update_bill_sound}
use restaurant_pos.Tests.Data.{pricing, fresh_bill, priced_bill, value_of}

-- The bill of the two guests comes to 25.68.
priced_bill_total : priced_bill.breakdown.total_due ≡ 2568
unfolding update_bill apply_bill_level_pricing charges_on apply_promotions
    restaurant_pos.Billing.Editing.Items.new_bill
    restaurant_pos.Billing.Pricing.compute_promotion_discount
    restaurant_pos.Billing.Update.merge_breakdowns restaurant_pos.Billing.Splits.price_split
    calculate_line_item restaurant_pos.Money.gross_of round2 allocate_amount
    restaurant_pos.Money.service_of
priced_bill_total = refl

allocate_amount-sum_example :
    (sum (allocate_amount 100 (1 ∷ 1 ∷ 1 ∷ [])) ≡ 100)
    × (length (allocate_amount 100 (1 ∷ 1 ∷ 1 ∷ [])) ≡ 3)
allocate_amount-sum_example = allocate_amount-sum 100 (1 ∷ 1 ∷ 1 ∷ []) (omega arith)

allocate_amount-le_example : get_or (allocate_amount 5 (2 ∷ 3 ∷ 1 ∷ [])) 1 0 ≤ 3
allocate_amount-le_example = allocate_amount-le 5 (2 ∷ 3 ∷ 1 ∷ []) (omega arith) 1

abbrev after_pricing : Splits
after_pricing = value_of (apply_bill_level_pricing pricing fresh_bill.splits) fresh_bill.splits

apply_bill_level_pricing-Conserves_example :
    (ch : Charges) × (charges_on pricing (sum (bases pricing fresh_bill.splits)) ≡ ok ch)
    × Conserves pricing ch after_pricing
unfolding apply_bill_level_pricing charges_on apply_promotions
    restaurant_pos.Billing.Pricing.compute_promotion_discount
apply_bill_level_pricing-Conserves_example =
    apply_bill_level_pricing-Conserves pricing fresh_bill.splits after_pricing refl

split_due-eq-whole_due_example :
    split_due pricing fresh_bill.splits ≡ whole_due pricing (all_lines fresh_bill.splits)
unfolding restaurant_pos.Billing.Editing.Items.new_bill
split_due-eq-whole_due_example =
    split_due-eq-whole_due pricing fresh_bill.splits (calculate_line_item-IsLine true _, tt)
      (calculate_line_item-IsLine true _, tt) tt

update_bill_sound_example :
    ((priced_bill.state ≡ paid) ↔ ((build_receipt priced_bill).balance_due ≡ 0))
    × ((ch : Charges) × (charges_on pricing (sum (bases pricing fresh_bill.splits)) ≡ ok ch)
        × (priced_bill.breakdown.total_due ≡ ch.base + ch.tax + ch.service))
unfolding restaurant_pos.Billing.Splits.amount_paid restaurant_pos.Billing.Editing.Items.new_bill
    update_bill apply_bill_level_pricing charges_on apply_promotions
    restaurant_pos.Billing.Pricing.compute_promotion_discount
update_bill_sound_example = update_bill_sound 100 fresh_bill priced_bill refl refl refl refl
