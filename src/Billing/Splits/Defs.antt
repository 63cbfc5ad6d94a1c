-- ===== src/Billing/Splits/Defs.antt =====
-- The definitions: the breakdown of one split's lines, and the pricing of all splits together.
use restaurant_pos.Base.{
  ℕ, ◌+◌, ◌-◌, ◌*◌, max, Bool, true, false, ◌&&◌, List, [], ◌∷◌, ◌==◌, ltb, if◌then◌else◌, sum, map,
  get_or,
}
use restaurant_pos.Base.Int.{ℤ, pos, negsuc, sub_ℕ, pos_part, neg_part, ◌+ℤ◌}
use restaurant_pos.Base.Result.{Result, ok, and_then}
use restaurant_pos.Money.{round_div, percent_of, service_of}
use restaurant_pos.Money.Allocate.{allocate_amount}
use restaurant_pos.Billing.Types.{
  Pricing, Applied, LineItem, Breakdown, Payment, EntryType, payment, refund, PaymentStatus, voided,
  failed, Split, Splits, BillingState, unpaid, partially_paid, paid, debt, is_debt, taxable,
  tax_exempt,
}
use restaurant_pos.Billing.Pricing.{amounts, apply_promotions}

-- `lineItems.reduce((sum, item) => sum + f(item), 0)`
abbrev pub sum_of : (LineItem → ℕ) → List LineItem → ℕ
sum_of f [] = 0
sum_of f (l ∷ ls) = f l + sum_of f ls

abbrev pub rate_in_force : Pricing → ℕ
rate_in_force p = elim p.tax_mode [ taxable ↦ p.tax_rate | tax_exempt ↦ 0 ]

unfoldable pub line_discount_breakdown : List LineItem → Pricing → Breakdown
line_discount_breakdown ls p =
    let subtotal = sum_of (λ l. l.gross) ls in
    let item = sum_of (λ l. l.item_discount) ls in
    let combo = sum_of (λ l. l.combo_discount) ls in
    let happy = sum_of (λ l. l.happy_hour_discount) ls in
    let base = subtotal - item - combo - happy in
    record {
      subtotal = subtotal;
      discounts = record {
        item_level = item;
        combo = combo;
        happy_hour = happy;
        bill_level = 0;
        total = item + combo + happy;
      };
      taxable_subtotal = base;
      tax_mode = p.tax_mode;
      tax_rate = rate_in_force p;
      tax_total = 0;
      service_total = 0;
      service_rate = 0;
      service_enabled = true;
      total_due = base;
      applied = [];
      lines = ls;
    }

abbrev is_reversed : PaymentStatus → Bool
is_reversed voided = true
is_reversed failed = true
is_reversed _ = false

-- `getPaymentContribution`
unfoldable pub payment_contribution : Payment → ℤ
payment_contribution p = elim p.kind [
  | refund ↦ sub_ℕ 0 p.amount
  | EntryType.void ↦ pos 0
  | payment ↦ if is_reversed p.status then pos 0 else pos p.amount
]

unfoldable pub amount_paid : List Payment → ℤ
unfolding payment_contribution
amount_paid [] = pos 0
amount_paid (p ∷ ps) = payment_contribution p +ℤ amount_paid ps

-- `Math.max(totalDue - amountPaid, 0)`
unfoldable pub balance : ℕ → ℤ → ℕ
balance due got = due + neg_part got - pos_part got

abbrev is_zero_ℤ : ℤ → Bool
is_zero_ℤ (pos n) = n == 0
is_zero_ℤ (negsuc n) = false

unfoldable pub next_state : BillingState → ℕ → ℤ → BillingState
unfolding balance
next_state previous due got =
    let rest = balance due got in
    if due == 0
    then paid
    else if is_debt previous && ltb 0 rest
    then debt
    else if is_zero_ℤ got
    then unpaid
    else if ltb 0 rest
    then partially_paid
    else paid

-- The charges of the whole bill, before they are allocated to the splits.
pub record Charges : Type 0 where
  pub applied : List Applied
  pub base : ℕ
  pub discount : ℕ
  pub tax : ℕ
  pub service : ℕ

abbrev tax_on : Pricing → ℕ → ℕ
tax_on p base = elim p.tax_mode [ taxable ↦ percent_of base p.tax_rate | tax_exempt ↦ 0 ]

unfoldable pub charges_on : Pricing → ℕ → Result Charges
charges_on p base = and_then (apply_promotions p.promotions base) λ promoted. ok (record {
  applied = promoted.0;
  base = promoted.1;
  discount = amounts promoted.0;
  tax = tax_on p promoted.1;
  service = if p.service_enabled then service_of promoted.1 p.service_rate else 0;
})

-- The share of an applied promotion that a split shows; `100` cents is the `1` of the source.
unfoldable pub share_of : ℕ → ℕ → Applied → Applied
unfolding round_div
share_of allocated discount x = record x {
  amount = round_div (allocated * x.amount) (max discount 100);
}

-- One split, with the parts of the bill's discount, tax and service charge that fall to it.
unfoldable pub price_split : Pricing → Charges → ℕ → ℕ → ℕ → Split → Split
unfolding line_discount_breakdown share_of next_state amount_paid balance
price_split p charges bill_level tax service s =
    let start = line_discount_breakdown s.line_items p in
    let base = start.taxable_subtotal - bill_level in
    let due = base + tax + service in
    let got = amount_paid s.payments in
    let discounts = record start.discounts {
      bill_level = bill_level;
      total =
          start.discounts.item_level + start.discounts.combo + start.discounts.happy_hour
          + bill_level;
    } in
    record s {
      subtotal = start.subtotal;
      discount_total = discounts.total;
      tax_total = tax;
      total_due = due;
      amount_paid = got;
      unpaid_balance = balance due got;
      state = next_state s.state due got;
      breakdown = record start {
        discounts = discounts;
        taxable_subtotal = base;
        tax_total = tax;
        service_total = service;
        service_rate = p.service_rate;
        service_enabled = p.service_enabled;
        total_due = due;
        applied = map (share_of bill_level charges.discount) charges.applied;
      };
    }

-- `baseBreakdowns[label].taxableSubtotal`
abbrev pub base_of : Pricing → Split → ℕ
base_of p s = (line_discount_breakdown s.line_items p).taxable_subtotal

abbrev pub bases : Pricing → Splits → List ℕ
bases p s = base_of p s.split_a ∷ base_of p s.split_b ∷ base_of p s.split_c ∷ []

abbrev pub minus_each : List ℕ → List ℕ → List ℕ
minus_each [] ys = []
minus_each (x ∷ xs) [] = x ∷ minus_each xs []
minus_each (x ∷ xs) (y ∷ ys) = (x - y) ∷ minus_each xs ys

abbrev pub price_each : Pricing → Charges → Splits → List ℕ → List ℕ → List ℕ → Splits
price_each p ch s discounts taxes services = record {
  split_a =
      price_split p ch (get_or discounts 0 0) (get_or taxes 0 0) (get_or services 0 0) s.split_a;
  split_b =
      price_split p ch (get_or discounts 1 0) (get_or taxes 1 0) (get_or services 1 0) s.split_b;
  split_c =
      price_split p ch (get_or discounts 2 0) (get_or taxes 2 0) (get_or services 2 0) s.split_c;
}

-- `applyBillLevelPricing`
unfoldable pub apply_bill_level_pricing : Pricing → Splits → Result Splits
apply_bill_level_pricing p s = and_then (charges_on p (sum (bases p s))) λ ch.
    let discounts = allocate_amount ch.discount (bases p s) in
    let left = minus_each (bases p s) discounts in
    ok (price_each p ch s discounts (allocate_amount ch.tax left) (allocate_amount ch.service left))
