-- ===== src/Billing/Payments/Reverse.antt =====
-- `refundSplitPaymentImpl` and `voidSplitPaymentImpl` of backend/billing/service.ts.
use restaurant_pos.Base.{ℕ, Bool, true, false, not, Option, none, some, List, [], ◌∷◌, ◌++◌}
use restaurant_pos.Base.Int.{ℤ, pos, pos_part, ltb_ℤ}
use restaurant_pos.Base.Text.{Text, trim}
use restaurant_pos.Base.Result.{
  Result, ok, err, check, or_error, amount_not_positive, reason_required, payment_not_found,
  no_capture_reference, terminal_failed, drawer_failed,
}
use restaurant_pos.Money.{round2}
use restaurant_pos.Store.{
  M, pure, lift, ◌>>=◌, ◌>>◌, cash_drawer_opened, split_payment_refunded, payment_refunded,
  split_payment_voided, payment_voided,
}
use restaurant_pos.Billing.Types.{
  Bill, SplitLabel, Reference, Payment, split_of, with_split, is_external,
}
use restaurant_pos.Billing.Update.{update_bill}
use restaurant_pos.Billing.Devices.{Devices, Request, Taken}
use restaurant_pos.Billing.Access.{load_bill, save_bill, append_billing_audit, record_audit_event}
use restaurant_pos.Billing.Payments.Ledger.{
  find_payment, check_refund, check_void, mark_voided, refund_entry, void_entry,
}

pub record ReversalInput : Type 0 where
  pub session : ℕ
  pub label : SplitLabel
  pub payment : ℕ
  pub actor : ℕ
  pub reason : Text

abbrev pub request_of : ReversalInput → Bill → Payment → ℕ → ℕ → Request
request_of input b original id amount = record {
  amount = amount;
  method = original.method;
  session = b.session;
  label = input.label;
  bill = b.id;
  actor = input.actor;
  payment = id;
}

abbrev pub is_blank : Text → Bool
is_blank [] = true
is_blank (_ ∷ _) = false

abbrev pub capture_of : Option Reference → Option ℕ
capture_of none = none
capture_of (some r) = r.capture

abbrev authorization_of : Option Reference → Option ℕ
authorization_of none = none
authorization_of (some r) = r.authorization

-- An external payment is refunded by the terminal, a cash payment from the drawer.
unfoldable pub pay_back : Devices → Request → Payment → ℕ → M Taken
unfolding append_billing_audit
pay_back d r original now = elim (is_external original.method) [
  | true ↦ do
    capture ← lift (or_error (capture_of original.reference) no_capture_reference)
    back ← lift (or_error (d.refund r capture) terminal_failed)
    pure (record {
      reference =
          some (record { authorization = none; capture = some capture; reversal = some back.id });
      at = back.at;
    })
  | false ↦ do
    drawer ← lift (or_error (d.open_drawer r) drawer_failed)
    append_billing_audit cash_drawer_opened r.actor r.session r.amount drawer.at
    pure (record { reference = none; at = now })
]

abbrev pub with_payments : Bill → SplitLabel → List Payment → Bill
with_payments b label ps = record b {
  splits = with_split b.splits label (record (split_of b.splits label) { payments = ps });
}

unfoldable pub refund_split_payment : Devices → ReversalInput → ℤ → ℕ → ℕ → M Bill
unfolding load_bill save_bill append_billing_audit record_audit_event
refund_split_payment d input raw id now = do
  b ← load_bill input.session
  lift (check (ltb_ℤ (pos 0) raw) amount_not_positive)
  let reason = trim input.reason
  lift (check (not (is_blank reason)) reason_required)
  let ps = (split_of b.splits input.label).payments
  original ← lift (or_error (find_payment ps input.payment) payment_not_found)
  let amount = pos_part (round2 raw)
  lift (check_refund original ps amount)
  back ← pay_back d (request_of input b original id amount) original now
  let entry = refund_entry original id amount back.at input.actor reason back.reference
  final ← lift (update_bill now (with_payments b input.label (ps ++ (entry ∷ []))))
  append_billing_audit split_payment_refunded input.actor b.session amount back.at
  record_audit_event payment_refunded input.actor b.id amount back.at
  save_bill final

-- Only an external payment is voided at the terminal.
unfoldable pub void_at_terminal : Devices → Request → Payment → ℕ → Result Taken
void_at_terminal d r original now = elim (is_external original.method) [
  | false ↦ ok (record { reference = none; at = now })
  | true ↦ elim (d.void_payment r (capture_of original.reference)) [
    | none ↦ err terminal_failed
    | some back ↦ ok (record {
      reference = some (record {
        authorization = authorization_of original.reference;
        capture = capture_of original.reference;
        reversal = some back.id;
      });
      at = back.at;
    })
  ]
]

unfoldable pub void_split_payment : Devices → ReversalInput → ℕ → ℕ → M Bill
unfolding load_bill save_bill append_billing_audit record_audit_event
void_split_payment d input id now = do
  b ← load_bill input.session
  let reason = trim input.reason
  lift (check (not (is_blank reason)) reason_required)
  let ps = (split_of b.splits input.label).payments
  original ← lift (or_error (find_payment ps input.payment) payment_not_found)
  lift (check_void original ps)
  back ← lift (void_at_terminal d (request_of input b original id original.amount) original now)
  let entry = void_entry original id back.at input.actor reason back.reference
  final ←
      lift (
        update_bill now
          (with_payments b input.label (mark_voided ps input.payment ++ (entry ∷ []))))
  append_billing_audit split_payment_voided input.actor b.session original.amount back.at
  record_audit_event payment_voided input.actor b.id original.amount back.at
  save_bill final
