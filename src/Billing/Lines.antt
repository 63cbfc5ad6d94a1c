-- ===== src/Billing/Lines.antt =====
-- Bill lines: `computeLineDiscounts` and `calculateLineItem` of backend/billing/service.ts.
pub mod Laws
use restaurant_pos.Base.{ℕ, ◌+◌, ◌-◌, Bool, Option, none, some, if◌then◌else◌}
use restaurant_pos.Base.Int.{ℤ, pos, ◌+ℤ◌}
use restaurant_pos.Money.{round2, gross_of, cap_discount}
use restaurant_pos.Billing.Types.{TableOrderItem, LineItem}
use restaurant_pos.Billing.Pricing.{or_default}

pub record LineDiscounts : Type 0 where
  pub item : ℕ
  pub combo : ℕ
  pub happy_hour : ℕ
  pub total : ℕ

-- `itemDiscount ?? lineDiscount ?? 0`
abbrev pub item_or_legacy : TableOrderItem → ℤ
item_or_legacy it = or_default it.item_discount (or_default it.line_discount (pos 0))

unfoldable pub compute_line_discounts : TableOrderItem → ℕ → LineDiscounts
unfolding cap_discount
compute_line_discounts it gross =
    let item = cap_discount (round2 (item_or_legacy it)) gross in
    let remaining = gross - item in
    let combo = cap_discount (round2 (or_default it.combo_discount (pos 0))) remaining in
    let remaining' = remaining - combo in
    let happy = cap_discount (round2 (or_default it.happy_hour_discount (pos 0))) remaining' in
    record { item = item; combo = combo; happy_hour = happy; total = item + combo + happy }

unfoldable pub calculate_line_item : Bool → TableOrderItem → LineItem
unfolding compute_line_discounts
calculate_line_item bill_level_tax it =
    let gross = gross_of it.quantity it.unit_price in
    let discounts = compute_line_discounts it gross in
    let net = gross - discounts.total in
    let tax : ℤ = if bill_level_tax then pos 0 else round2 (or_default it.line_tax (pos 0)) in
    record {
      order_item = it.id;
      quantity = it.quantity;
      unit_price = it.unit_price;
      item_discount = discounts.item;
      combo_discount = discounts.combo;
      happy_hour_discount = discounts.happy_hour;
      line_discount = discounts.total;
      line_tax = tax;
      line_total = pos net +ℤ tax;
      gross = gross;
      net = net;
    }
