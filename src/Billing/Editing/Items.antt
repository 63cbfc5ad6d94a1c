-- ===== src/Billing/Editing/Items.antt =====
-- `generateBillFromSessionItemsImpl`, `updateBillSplitItemsImpl`, `mergeBillSplitsImpl` and
-- `removeVoidedBillItem` of backend/billing/service.ts.
use restaurant_pos.Base.{
  ℕ, Bool, true, not, ◌||◌, Option, none, some, List, [], ◌++◌, ◌==◌, map, select, is_some,
}
use restaurant_pos.Base.Int.{pos, ltb_ℤ}
use restaurant_pos.Base.Table.{get}
use restaurant_pos.Base.Result.{Result, and_then, check, bill_exists, split_has_payments}
use restaurant_pos.Store.{
  M, pure, gets, lift, ◌>>=◌, ◌>>◌, bill_generated, bill_split_items_updated, bill_splits_merged,
}
use restaurant_pos.Billing.Types.{
  Bill, unpaid, Split, Splits, SplitLabel, a, b, c, LineItem, TableOrderItem, Pricing, PricingInput,
  Breakdown, map_splits,
}
use restaurant_pos.Billing.Pricing.{ChargeSettings, normalize_pricing, or_default, no_input}
use restaurant_pos.Billing.Lines.{calculate_line_item}
use restaurant_pos.Billing.Update.{update_bill, assert_bill_editable, has_payments}
use restaurant_pos.Billing.Access.{
  load_bill, save_bill, append_billing_audit, assert_session_item_assignments, assert_same_session,
}
use restaurant_pos.Tables.Access.{require_open_session}

-- `itemsBySplit`, with an empty list for a label that is absent
pub record ItemsBySplit : Type 0 where
  pub items_a : List TableOrderItem
  pub items_b : List TableOrderItem
  pub items_c : List TableOrderItem

-- `Object.values(itemsBySplit).flat()`
abbrev pub all_items : ItemsBySplit → List TableOrderItem
all_items i = i.items_a ++ (i.items_b ++ i.items_c)

unfoldable pub empty_breakdown : Pricing → Breakdown
empty_breakdown p = record {
  subtotal = 0;
  discounts = record { item_level = 0; combo = 0; happy_hour = 0; bill_level = 0; total = 0 };
  taxable_subtotal = 0;
  tax_mode = p.tax_mode;
  tax_rate = p.tax_rate;
  tax_total = 0;
  service_total = 0;
  service_rate = 0;
  service_enabled = true;
  total_due = 0;
  applied = [];
  lines = [];
}

unfoldable pub new_split : Pricing → List TableOrderItem → Split
unfolding empty_breakdown
new_split p items = record {
  line_items = map (calculate_line_item true) items;
  subtotal = 0;
  tax_total = 0;
  discount_total = 0;
  total_due = 0;
  amount_paid = pos 0;
  unpaid_balance = 0;
  state = unpaid;
  payments = [];
  breakdown = empty_breakdown p;
}

-- The bill that is priced and saved, for an open session and its items.
unfoldable pub new_bill : Pricing → ItemsBySplit → ℕ → ℕ → ℕ → ℕ → Bill
unfolding new_split empty_breakdown
new_bill p items id branch session now = record {
  id = id;
  branch = branch;
  session = session;
  splits = record {
    split_a = new_split p items.items_a;
    split_b = new_split p items.items_b;
    split_c = new_split p items.items_c;
  };
  state = unpaid;
  pricing = p;
  breakdown = empty_breakdown p;
  receipt = none;
  created_at = now;
  updated_at = now;
}

-- `{ serviceChargeRate: settings.serviceCharge.rate, ...pricingInput }`
abbrev with_service_rate : ChargeSettings → Option PricingInput → PricingInput
with_service_rate settings given =
    let p = or_default given no_input in
    record p { service_rate = some (or_default p.service_rate settings.service_rate) }

unfoldable pub generate_bill :
    ChargeSettings → ℕ → ItemsBySplit → ℕ → Option PricingInput → ℕ → ℕ → M Bill
unfolding require_open_session assert_session_item_assignments assert_same_session save_bill
    append_billing_audit
generate_bill settings session items actor given id now = do
  opened ← require_open_session session
  exists ← gets (λ s. is_some (get s.bills session))
  lift (check (not exists) bill_exists)
  assert_session_item_assignments session (all_items items)
  p ← lift (normalize_pricing settings (some (with_service_rate settings given)))
  lift (assert_same_session session (all_items items))
  final ← lift (update_bill now (new_bill p items id opened.branch session now))
  append_billing_audit bill_generated actor session 0 now
  save_bill final

-- `assertEditableSplit`, on the three splits
unfoldable pub assert_editable_splits : Splits → Result (Unit {0})
assert_editable_splits s = and_then (check (is_free s.split_a) split_has_payments) λ _.
    and_then (check (is_free s.split_b) split_has_payments)
      λ _. check (is_free s.split_c) split_has_payments
  where
    is_free : Split → Bool
    is_free x = not (has_payments x || ltb_ℤ (pos 0) x.amount_paid)

abbrev with_lines : Split → List LineItem → Split
with_lines x ls = record x { line_items = ls }

unfoldable pub with_items : Bill → ItemsBySplit → Bill
with_items x items = record x {
  splits = record {
    split_a = with_lines x.splits.split_a (map (calculate_line_item true) items.items_a);
    split_b = with_lines x.splits.split_b (map (calculate_line_item true) items.items_b);
    split_c = with_lines x.splits.split_c (map (calculate_line_item true) items.items_c);
  };
}

unfoldable pub update_bill_split_items : ℕ → ItemsBySplit → ℕ → ℕ → M Bill
unfolding load_bill assert_session_item_assignments save_bill append_billing_audit
update_bill_split_items session items actor now = do
  x ← load_bill session
  lift (assert_bill_editable (some x))
  assert_session_item_assignments session (all_items items)
  lift (assert_editable_splits x.splits)
  lift (assert_same_session session (all_items items))
  final ← lift (update_bill now (with_items x items))
  append_billing_audit bill_split_items_updated actor session 0 now
  save_bill final

abbrev lines_of : Splits → List LineItem
lines_of s = s.split_a.line_items ++ (s.split_b.line_items ++ s.split_c.line_items)

-- Every line goes to the target split.
unfoldable pub merged : Bill → SplitLabel → Bill
merged x target =
    let cleared = map_splits (λ y. with_lines y []) x.splits in
    let moved = lines_of x.splits in
    record x {
      splits = elim target [
        | a ↦ record cleared { split_a = with_lines x.splits.split_a moved }
        | b ↦ record cleared { split_b = with_lines x.splits.split_b moved }
        | c ↦ record cleared { split_c = with_lines x.splits.split_c moved }
      ];
    }

-- The source does not call `assertBillEditable` here.
unfoldable pub merge_bill_splits : ℕ → ℕ → SplitLabel → ℕ → M Bill
unfolding load_bill save_bill append_billing_audit
merge_bill_splits session actor target now = do
  x ← load_bill session
  lift (assert_editable_splits x.splits)
  final ← lift (update_bill now (merged x target))
  append_billing_audit bill_splits_merged actor session 0 now
  save_bill final

unfoldable pub without_item : ℕ → Split → Split
without_item id x = record x { line_items = select (λ l. not (l.order_item == id)) x.line_items }

-- The lines of a voided order item are taken off; a session without a bill is left alone.
unfoldable pub remove_voided_item : ℕ → ℕ → ℕ → M (Unit {0})
unfolding save_bill without_item
remove_voided_item session id now = do
  found ← gets (λ s. get s.bills session)
  elim found [
    | none ↦ pure tt
    | some x ↦ do
      lift (assert_bill_editable (some x))
      final ← lift (update_bill now (record x { splits = map_splits (without_item id) x.splits }))
      save_bill final
      pure tt
  ]
