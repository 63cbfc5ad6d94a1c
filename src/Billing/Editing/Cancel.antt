-- ===== src/Billing/Editing/Cancel.antt =====
-- `voidBillImpl` of backend/billing/service.ts.
use restaurant_pos.Base.{ℕ, not, []}
use restaurant_pos.Base.Text.{Text, trim}
use restaurant_pos.Base.Result.{check, reason_required, paid_bill_not_voidable}
use restaurant_pos.Store.{M, lift, ◌>>=◌, ◌>>◌, bill_voided}
use restaurant_pos.Billing.Types.{Bill, Split, void, map_splits, is_paid}
use restaurant_pos.Billing.Update.{with_receipt}
use restaurant_pos.Billing.Access.{load_bill, save_bill, append_billing_audit, record_audit_event}
use restaurant_pos.Billing.Editing.Items.{empty_breakdown}
use restaurant_pos.Billing.Payments.Reverse.{is_blank}

unfoldable pub void_split : Split → Split
void_split x = record x {
  state = void;
  total_due = 0;
  tax_total = 0;
  discount_total = 0;
  unpaid_balance = 0;
}

-- The promotions are dropped; the tax and service settings stay.
unfoldable pub voided_bill : ℕ → Bill → Bill
unfolding with_receipt empty_breakdown void_split
voided_bill now b =
    let p = record (b.pricing) { promotions = [] } in
    record (with_receipt (record b {
      splits = map_splits void_split b.splits;
      state = void;
      pricing = p;
      breakdown = empty_breakdown p;
    })) { updated_at = now }

unfoldable pub void_bill : ℕ → ℕ → Text → ℕ → M Bill
unfolding load_bill save_bill append_billing_audit record_audit_event
void_bill session actor reason now = do
  b ← load_bill session
  lift (check (not (is_blank (trim reason))) reason_required)
  lift (check (not (is_paid b.state)) paid_bill_not_voidable)
  let final = voided_bill now b
  append_billing_audit bill_voided actor session 0 now
  record_audit_event bill_voided actor b.id 0 now
  save_bill final
