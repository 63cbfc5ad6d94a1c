-- ===== src/Billing/Lines/Laws.antt =====
-- The discounts of a line come in a fixed order, each capped by what the earlier ones leave.
use restaurant_pos.Base.{ℕ, ◌+◌, ◌-◌, ◌≤◌, ◌≡◌, refl, Bool, arith, min}
use restaurant_pos.Base.Int.{pos, pos_part}
use restaurant_pos.Money.{round2}
use restaurant_pos.Billing.Types.{TableOrderItem, LineItem}
use restaurant_pos.Billing.Pricing.{or_default}
use restaurant_pos.Billing.Lines.{compute_line_discounts, calculate_line_item, item_or_legacy}

-- The gross amount of a line is what its discounts take and what is left.
pub record IsLine (l : LineItem) : Type 0 where
  pub whole : l.item_discount + l.combo_discount + l.happy_hour_discount + l.net ≡ l.gross
  pub added : l.line_discount ≡ l.item_discount + l.combo_discount + l.happy_hour_discount

pub calculate_line_item-IsLine :
    (t : Bool) (it : TableOrderItem) → IsLine (calculate_line_item t it)
unfolding calculate_line_item
calculate_line_item-IsLine t it = record { whole = omega arith; added = omega arith }

-- A line's discounts are taken in the order item, combo, happy hour: each is the requested amount,
-- rounded and not below zero, or all that the earlier ones leave of the gross amount if that is
-- less; with what remains of the line they add up to the gross amount.
pub compute_line_discounts_order :
    (it : TableOrderItem) (gross : ℕ)
    → let d = compute_line_discounts it gross in
      (d.item ≡ min (pos_part (round2 (item_or_legacy it))) gross)
      × (d.combo ≡ min (pos_part (round2 (or_default it.combo_discount (pos 0)))) (gross - d.item))
      × (d.happy_hour
          ≡ min
              (pos_part (round2 (or_default it.happy_hour_discount (pos 0))))
              (gross - d.item - d.combo))
      × (d.total ≡ d.item + d.combo + d.happy_hour)
      × (d.total ≤ gross)
unfolding compute_line_discounts
compute_line_discounts_order it gross = (refl, refl, refl, refl, omega arith)
