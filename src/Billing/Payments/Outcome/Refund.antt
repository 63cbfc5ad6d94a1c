-- ===== src/Billing/Payments/Outcome/Refund.antt =====
-- Every branch of `refundSplitPaymentImpl`.
use restaurant_pos.Base.{
  ℕ, ◌≡◌, some, [], ◌∷◌, ◌++◌, arith, inl, inr, ◌⊎◌, Bool-cases, Option-cases,
}
use restaurant_pos.Base.Table.{get, put}
use restaurant_pos.Base.Int.{ℤ, pos, pos_part, ltb_ℤ}
use restaurant_pos.Base.Text.{trim}
use restaurant_pos.Base.Result.{
  Result, ok, Result-cases, amount_not_positive, bill_not_found, reason_required, payment_not_found,
}
use restaurant_pos.Money.{round2}
use restaurant_pos.Store.{Store}
use restaurant_pos.Billing.Types.{Bill, Payment, split_of}
use restaurant_pos.Billing.Update.{update_bill}
use restaurant_pos.Billing.Devices.{Devices, Request, Taken}
use restaurant_pos.Billing.Access.{load_bill, save_bill, append_billing_audit, record_audit_event}
use restaurant_pos.Billing.Payments.Ledger.{find_payment, check_refund, refund_entry}
use restaurant_pos.Billing.Payments.Reverse.{
  ReversalInput, refund_split_payment, pay_back, with_payments, is_blank, request_of,
}
use restaurant_pos.Billing.Payments.Outcome.{Refused}

pay_back-bills :
    (d : Devices) (r : Request) (o : Payment) (now : ℕ) (s : Store)
    → (pay_back d r o now s).1.bills ≡ s.bills
unfolding pay_back append_billing_audit
pay_back-bills d r o now s = ground arith

module _ (d : Devices) (input : ReversalInput) (id now : ℕ) where
  -- How a refund got through: the bill `x` was there, the payment `original` was found and covers the
  -- amount, the entry was posted before the repricing that gave `y`, and `y` was saved.
  pub record Refunded (raw : ℤ) (s : Store) (r : Result Bill × Store) (x y : Bill) : Type 0 where
    pub original : Payment
    pub answer : Taken
    pub loaded : get s.bills input.session ≡ some x
    pub found : find_payment (split_of x.splits input.label).payments input.payment ≡ some original
    pub fits :
        check_refund original (split_of x.splits input.label).payments (pos_part (round2 raw))
        ≡ ok tt
    pub given :
        (pay_back d (request_of input x original id (pos_part (round2 raw))) original now s).0
        ≡ ok answer
    pub posted :
        update_bill now (
          with_payments x input.label (
            (split_of x.splits input.label).payments
            ++ refund_entry original id
                (pos_part (round2 raw))
                answer.at
                input.actor
                (trim input.reason)
                answer.reference
              ∷ []))
        ≡ ok y
    pub gives : r.0 ≡ ok y
    pub saved : r.1.bills ≡ put s.bills y.session y

  -- A refund either fails, and then no bill changed; or the bill was there, the payment was found,
  -- what is left of it covers the amount, the entry was appended to the split's payments before
  -- the repricing, and of the bills only the repriced one was saved.
  pub refund_split_payment_cases :
      (raw : ℤ) (s : Store)
      → let r = refund_split_payment d input raw id now s in
        ((x : Bill) × (y : Bill) × Refunded raw s r x y) ⊎ Refused s r
  unfolding refund_split_payment load_bill save_bill append_billing_audit record_audit_event
  refund_split_payment_cases raw s = elim (Option-cases (get s.bills input.session)) [
    | inl e ↦ inr (bill_not_found, ground arith, ground arith)
    | inr (x, e) ↦ elim (Bool-cases (ltb_ℤ (pos 0) raw)) [
      | inr f ↦ inr (amount_not_positive, ground arith, ground arith)
      | inl t ↦ elim (Bool-cases (is_blank (trim input.reason))) [
        | inl f ↦ inr (reason_required, ground arith, ground arith)
        | inr u ↦
            let ps = (split_of x.splits input.label).payments in
            elim (Option-cases (find_payment ps input.payment)) [
              | inl f ↦ inr (payment_not_found, ground arith, ground arith)
              | inr (o, v) ↦
                  let amount = pos_part (round2 raw) in
                  elim (Result-cases (check_refund o ps amount)) [
                    | inr (e1, f) ↦ inr (e1, ground arith, ground arith)
                    | inl (_, w) ↦
                        let r = request_of input x o id amount in
                        let kept = pay_back-bills d r o now s in
                        elim (Result-cases (pay_back d r o now s).0) [
                          | inr (e1, f) ↦ inr (e1, ground arith, ground arith)
                          | inl (ref, z) ↦
                              elim (Result-cases (
                                update_bill now (
                                  with_payments x input.label (
                                    ps
                                    ++ refund_entry o id amount ref.at input.actor
                                        (trim input.reason) ref.reference
                                      ∷ [])))) [
                                        | inr (e1, f) ↦ inr (e1, ground arith, ground arith)
                                        | inl (y, q) ↦ inl (
                                          x,
                                          y,
                                          record {
                                            original = o;
                                            answer = ref;
                                            loaded = e;
                                            found = v;
                                            fits = w;
                                            given = z;
                                            posted = q;
                                            gives = ground arith;
                                            saved = ground arith;
                                          },
                                        )
                                      ]
                        ]
                  ]
            ]
      ]
    ]
  ]
