-- ===== src/Tests/Editing.antt =====
-- The operations on a bill at concrete inputs.
use restaurant_pos.Base.{ℕ, ◌≡◌, refl, Bool, true, Option, List, [], ◌∷◌, map}
use restaurant_pos.Base.Int.{ℤ}
use restaurant_pos.Store.{Store}
use restaurant_pos.Billing.Types.{TaxMode, TableOrderItem, b}
use restaurant_pos.Billing.Lines.{calculate_line_item}
use restaurant_pos.Billing.Lines.Laws.{calculate_line_item-IsLine}
use restaurant_pos.Billing.Splits.Whole.{split_due, whole_due}
use restaurant_pos.Billing.Editing.Reprice.{set_bill_tax_mode, set_bill_charges}
use restaurant_pos.Billing.Editing.Items.{
  ItemsBySplit, all_items, new_bill, merged, update_bill_split_items, remove_voided_item,
}
use restaurant_pos.Billing.Editing.Cancel.{voided_bill}
use restaurant_pos.Billing.Editing.Move.{transfer_unpaid_bill}
use restaurant_pos.Billing.Editing.Guards.{Rejects, frozen_bill}
use restaurant_pos.Billing.Editing.Totals.{Lined, merged-split_due, new_bill-split_due}
use restaurant_pos.Tests.Data.{store, priced_bill, fresh_bill, settings, pricing, items}

abbrev void_store : Store
void_store = record store { bills = (7, voided_bill 150 priced_bill) ∷ [] }

frozen_bill_example :
    ((mode : TaxMode) (rate : Option ℤ) (actor now : ℕ)
      → Rejects void_store (set_bill_tax_mode settings 7 mode rate actor now void_store))
    × ((tax service : Bool) (actor : ℕ) (branch : Option ℕ) (now : ℕ)
        → Rejects void_store (set_bill_charges 7 tax service actor branch now void_store))
    × ((new : ItemsBySplit) (actor now : ℕ)
        → Rejects void_store (update_bill_split_items 7 new actor now void_store))
    × ((item now : ℕ) → Rejects void_store (remove_voided_item 7 item now void_store))
    × ((moved : List TableOrderItem) (id now : ℕ)
        → Rejects void_store (transfer_unpaid_bill 7 8 moved id now void_store)
          × Rejects void_store (transfer_unpaid_bill 8 7 moved id now void_store))
unfolding restaurant_pos.Billing.Update.is_editable voided_bill
frozen_bill_example = frozen_bill settings 7 8 (voided_bill 150 priced_bill) void_store refl refl

fresh_bill-Lined : Lined fresh_bill.splits
unfolding new_bill
fresh_bill-Lined = record {
  split_a = (calculate_line_item-IsLine true _, tt);
  split_b = (calculate_line_item-IsLine true _, tt);
  split_c = tt;
}

merged-split_due_example :
    split_due pricing (merged fresh_bill b).splits ≡ split_due pricing fresh_bill.splits
merged-split_due_example = merged-split_due pricing fresh_bill b fresh_bill-Lined

new_bill-split_due_example :
    split_due pricing (new_bill pricing items 4 1 7 100).splits
    ≡ whole_due pricing (map (calculate_line_item true) (all_items items))
new_bill-split_due_example = new_bill-split_due pricing items 4 1 7 100
