-- ===== src/Billing/Payments/Outcome/Keep.antt =====
-- The payment operations keep every ledger of the store sound, on every branch.
use restaurant_pos.Base.{ℕ, ◌≡◌, some, arith, subst, sym, ◌∙◌, inl, inr, Bool-cases, ◌==◌, ==_iff}
use restaurant_pos.Base.Int.{ℤ}
use restaurant_pos.Base.Table.{get, put, get-put_self, get-put_ne}
use restaurant_pos.Store.{Store}
use restaurant_pos.Billing.Types.{Bill, split_of}
use restaurant_pos.Billing.Devices.{Devices}
use restaurant_pos.Billing.Payments.Record.{PaymentInput, record_split_payment, push_payment}
use restaurant_pos.Billing.Payments.Reverse.{
  ReversalInput, refund_split_payment, void_split_payment, with_payments,
}
use restaurant_pos.Billing.Payments.Preserve.{Fresh, new_payment-Sound}
use restaurant_pos.Billing.Payments.Preserve.Refund.{refund_entry-Sound}
use restaurant_pos.Billing.Payments.Preserve.Void.{void_entry-Sound}
use restaurant_pos.Billing.Payments.Outcome.{
  Settleable, update_bill-Settleable, with_payments-Settleable,
}
use restaurant_pos.Billing.Payments.Outcome.Refund.{refund_split_payment_cases}
use restaurant_pos.Billing.Payments.Outcome.Void.{void_split_payment_cases}
use restaurant_pos.Billing.Payments.Outcome.Record.{
  record_split_payment_cases, post_debt-Settleable,
}

-- The ledger of each split of each bill is sound.
unfoldable pub Ledgers : Store → Type 0
Ledgers s = (k : ℕ) (x : Bill) → get s.bills k ≡ some x → Settleable x.splits

Ledgers-same : (s t : Store) → t.bills ≡ s.bills → Ledgers s → Ledgers t
unfolding Ledgers
Ledgers-same s t e h k x g = h k x (sym (λ i. get (e i) k) ∙ g)

Ledgers-put :
    (s t : Store) (y : Bill)
    → t.bills ≡ put s.bills y.session y
    → Settleable y.splits
    → Ledgers s
    → Ledgers t
unfolding Ledgers
Ledgers-put s t y e sound h k x g = elim (Bool-cases (k == y.session)) [
  | inl t1 ↦
      let at_y : get t.bills k ≡ some y =
        rw (e, (==_iff k y.session).0 t1) (get-put_self s.bills y.session y) in
      let same : y ≡ x = ground arith in subst (λ v. Settleable v.splits) same sound
  | inr f ↦
      h k x
        (sym (get-put_ne s.bills k y.session y (λ q. ground arith)) ∙ (sym (λ i. get (e i) k) ∙ g))
]

-- A refund keeps every ledger of the store sound, whether it goes through, is refused or fails at a device.
pub refund_split_payment-Ledgers :
    (d : Devices) (input : ReversalInput) (raw : ℤ) (id now : ℕ) (s : Store)
    → Ledgers s
    → Ledgers (refund_split_payment d input raw id now s).1
unfolding Ledgers
refund_split_payment-Ledgers d input raw id now s h =
    let t = (refund_split_payment d input raw id now s).1 in
    elim (refund_split_payment_cases d input id now raw s) [
      | inr (_, _, same) ↦ Ledgers-same s t same h
      | inl (x, y, done) ↦
          let ps = (split_of x.splits input.label).payments in
          Ledgers-put s t y done.saved
            (update_bill-Settleable now (with_payments x input.label _) y done.posted (
              with_payments-Settleable x input.label _ (h input.session x done.loaded) (
                refund_entry-Sound ps input.payment id _ _ input.actor done.original _
                  done.answer.reference done.found done.fits)))
            h
    ]

-- A void keeps every ledger sound, whether it goes through, is refused or fails at a device.
pub void_split_payment-Ledgers :
    (d : Devices) (input : ReversalInput) (id now : ℕ) (s : Store)
    → Ledgers s
    → Ledgers (void_split_payment d input id now s).1
unfolding Ledgers
void_split_payment-Ledgers d input id now s h =
    let t = (void_split_payment d input id now s).1 in
    elim (void_split_payment_cases d input id now s) [
      | inr (_, _, same) ↦ Ledgers-same s t same h
      | inl (x, y, done) ↦
          let ps = (split_of x.splits input.label).payments in
          Ledgers-put s t y done.saved
            (update_bill-Settleable now (with_payments x input.label _) y done.posted (
              with_payments-Settleable x input.label _ (h input.session x done.loaded) (
                void_entry-Sound ps input.payment id _ input.actor done.original _
                  done.answer.reference done.found done.fits)))
            h
    ]

-- A payment, under an id that its split does not use, keeps every ledger sound, whether it goes
-- through, is declined or fails at a device.
pub record_split_payment-Ledgers :
    (d : Devices) (input : PaymentInput) (id now : ℕ) (s : Store)
    → ((x : Bill)
        → get s.bills input.session ≡ some x
        → Fresh id (split_of x.splits input.label).payments)
    → Ledgers s
    → Ledgers (record_split_payment d input id now s).1
unfolding Ledgers
record_split_payment-Ledgers d input id now s fresh h =
    let t = (record_split_payment d input id now s).1 in
    elim (record_split_payment_cases d input id now s) [
      | inr (_, _, same) ↦ Ledgers-same s t same h
      | inl (x, y, done) ↦
          let ps = (split_of x.splits input.label).payments in
          Ledgers-put s t y done.saved
            (post_debt-Settleable input _ now done.priced y done.before_debt done.owed (
              update_bill-Settleable now (push_payment x input.label _) done.priced done.posted (
                with_payments-Settleable x input.label _ (h input.session x done.loaded) (
                  new_payment-Sound ps id _ input.method _ input.actor done.answer.reference
                    (fresh x done.loaded)))))
            h
    ]
