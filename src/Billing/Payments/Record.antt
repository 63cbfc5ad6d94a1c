-- ===== src/Billing/Payments/Record.antt =====
-- `recordSplitPaymentImpl` and `settleDebtImpl` of backend/billing/service.ts.
use restaurant_pos.Base.{
  ℕ, Bool, true, false, ◌&&◌, Option, none, some, [], ◌∷◌, ◌++◌, ltb, if◌then◌else◌,
}
use restaurant_pos.Base.Int.{ℤ, pos, pos_part, ltb_ℤ}
use restaurant_pos.Base.Result.{
  Result, ok, err, check, or_error, amount_not_positive, payment_declined, capture_failed,
  drawer_failed,
}
use restaurant_pos.Money.{round2}
use restaurant_pos.Store.{
  M, pure, lift, ◌>>=◌, ◌>>◌, cash_drawer_opened, split_payment_recorded, debt_created,
  debt_settled, debt_settlement_recorded,
}
use restaurant_pos.Billing.Types.{
  Bill, SplitLabel, PaymentMethod, Payment, debt, DebtAction, debt_settled_partial,
  debt_settled_full, split_of, with_split, is_external,
}
use restaurant_pos.Billing.Update.{update_bill}
use restaurant_pos.Billing.Devices.{Devices, Request, Taken}
use restaurant_pos.Billing.Access.{
  load_bill, save_bill, append_billing_audit, record_audit_event, append_debt,
}
use restaurant_pos.Billing.Payments.Ledger.{new_payment}

pub record PaymentInput : Type 0 where
  pub session : ℕ
  pub label : SplitLabel
  pub amount : ℤ
  pub method : PaymentMethod
  pub actor : ℕ
  pub paid_at : Option ℕ
  pub create_debt : Bool

abbrev pub request_for : PaymentInput → Bill → ℕ → ℕ → Request
request_for input b id amount = record {
  amount = amount;
  method = input.method;
  session = b.session;
  label = input.label;
  bill = b.id;
  actor = input.actor;
  payment = id;
}

-- An external payment is authorized, then captured, and has the time of its capture; a cash payment
-- has no reference and the time of the input.
unfoldable pub take_payment : Devices → Request → ℕ → Result Taken
take_payment d r at = elim (is_external r.method) [
  | false ↦ ok (record { reference = none; at = at })
  | true ↦ elim (d.authorize r) [
    | none ↦ err payment_declined
    | some a ↦ elim (d.capture r a) [
      | none ↦ err capture_failed
      | some c ↦ ok (record {
        reference = some (record { authorization = some a; capture = some c.id; reversal = none });
        at = c.at;
      })
    ]
  ]
]

-- A cash payment opens the drawer and records that twice, at the time that the drawer reports.
unfoldable pub open_drawer_for : Devices → Request → M (Unit {0})
unfolding append_billing_audit record_audit_event
open_drawer_for d r = elim (is_external r.method) [
  | true ↦ pure tt
  | false ↦ do
    drawer ← lift (or_error (d.open_drawer r) drawer_failed)
    append_billing_audit cash_drawer_opened r.actor r.session r.amount drawer.at
    record_audit_event cash_drawer_opened r.actor r.session r.amount drawer.at
]

abbrev pub push_payment : Bill → SplitLabel → Payment → Bill
push_payment b label p =
    let s = split_of b.splits label in
    record b { splits = with_split b.splits label (record s { payments = s.payments ++ (p ∷ []) }) }

abbrev pub as_debt : Bill → SplitLabel → Bill
as_debt b label = record b {
  splits = with_split b.splits label (record (split_of b.splits label) { state = debt });
}

-- What is still owed on the split becomes a debt, unless the caller asks not to.
unfoldable pub post_debt : PaymentInput → ℕ → ℕ → Bill → M Bill
unfolding append_debt record_audit_event update_bill
post_debt input at now b =
    let owed = (split_of b.splits input.label).unpaid_balance in
    elim (input.create_debt && ltb 0 owed) [
      | false ↦ pure b
      | true ↦ do
        append_debt (record {
          session = b.session;
          label = input.label;
          amount = owed;
          action = DebtAction.debt_created;
          actor = input.actor;
          at = at;
        })
        record_audit_event debt_created input.actor b.session owed at
        lift (update_bill now (as_debt b input.label))
    ]

abbrev pub or_now : Option ℕ → ℕ → ℕ
or_now none now = now
or_now (some t) now = t

unfoldable pub record_split_payment : Devices → PaymentInput → ℕ → ℕ → M Bill
unfolding load_bill save_bill append_billing_audit round2
record_split_payment d input id now = do
  b ← load_bill input.session
  lift (check (ltb_ℤ (pos 0) input.amount) amount_not_positive)
  let amount = pos_part (round2 input.amount)
  let r = request_for input b id amount
  taken ← lift (take_payment d r (or_now input.paid_at now))
  open_drawer_for d r
  priced ← lift (
      update_bill now (
        push_payment b input.label
          (new_payment id amount input.method taken.at input.actor taken.reference)))
  final ← post_debt input taken.at now priced
  append_billing_audit split_payment_recorded input.actor b.session amount taken.at
  save_bill final

-- The payment that settles a debt makes no new one.
unfoldable pub settle_debt : Devices → PaymentInput → ℕ → ℕ → M Bill
unfolding load_bill append_debt append_billing_audit record_audit_event
settle_debt d input id now = do
  load_bill input.session
  b ← record_split_payment d (record input { create_debt = false }) id now
  let rest = (split_of b.splits input.label).unpaid_balance
  let amount = pos_part (round2 input.amount)
  let at = or_now input.paid_at now
  append_debt (record {
    session = input.session;
    label = input.label;
    amount = amount;
    action = if ltb 0 rest then debt_settled_partial else debt_settled_full;
    actor = input.actor;
    at = at;
  })
  record_audit_event debt_settled input.actor input.session amount at
  append_billing_audit debt_settlement_recorded input.actor input.session amount at
  pure b
