-- ===== src/Billing/Payments/Outcome/Void.antt =====
-- Every branch of `voidSplitPaymentImpl`.
use restaurant_pos.Base.{
  ℕ, ◌≡◌, some, [], ◌∷◌, ◌++◌, arith, inl, inr, ◌⊎◌, Bool-cases, Option-cases,
}
use restaurant_pos.Base.Table.{get, put}
use restaurant_pos.Base.Text.{trim}
use restaurant_pos.Base.Result.{
  Result, ok, Result-cases, bill_not_found, reason_required, payment_not_found,
}
use restaurant_pos.Store.{Store}
use restaurant_pos.Billing.Types.{Bill, Payment, split_of}
use restaurant_pos.Billing.Update.{update_bill}
use restaurant_pos.Billing.Devices.{Devices, Taken}
use restaurant_pos.Billing.Access.{load_bill, save_bill, append_billing_audit, record_audit_event}
use restaurant_pos.Billing.Payments.Ledger.{find_payment, check_void, mark_voided, void_entry}
use restaurant_pos.Billing.Payments.Reverse.{
  ReversalInput, void_split_payment, void_at_terminal, with_payments, is_blank, request_of,
}
use restaurant_pos.Billing.Payments.Outcome.{Refused}

module _ (d : Devices) (input : ReversalInput) (id now : ℕ) where
  -- How a void got through: the payment `original` was found, had no refund and was not voided; it was
  -- marked, the entry was posted before the repricing that gave `y`, and `y` was saved.
  pub record Voided (s : Store) (r : Result Bill × Store) (x y : Bill) : Type 0 where
    pub original : Payment
    pub answer : Taken
    pub loaded : get s.bills input.session ≡ some x
    pub found : find_payment (split_of x.splits input.label).payments input.payment ≡ some original
    pub fits : check_void original (split_of x.splits input.label).payments ≡ ok tt
    pub given :
        void_at_terminal d (request_of input x original id original.amount) original now ≡ ok answer
    pub posted :
        update_bill now (
          with_payments x input.label (
            mark_voided (split_of x.splits input.label).payments input.payment
            ++ void_entry original id answer.at input.actor (trim input.reason) answer.reference
              ∷ []))
        ≡ ok y
    pub gives : r.0 ≡ ok y
    pub saved : r.1.bills ≡ put s.bills y.session y

  -- A void either fails, and then no bill changed; or the payment was found, had no refund and no
  -- void, it was marked voided and the entry was appended before the repricing, and of the bills
  -- only the repriced one was saved.
  pub void_split_payment_cases :
      (s : Store)
      → let r = void_split_payment d input id now s in
        ((x : Bill) × (y : Bill) × Voided s r x y) ⊎ Refused s r
  unfolding void_split_payment load_bill save_bill append_billing_audit record_audit_event
  void_split_payment_cases s = elim (Option-cases (get s.bills input.session)) [
    | inl e ↦ inr (bill_not_found, ground arith, ground arith)
    | inr (x, e) ↦ elim (Bool-cases (is_blank (trim input.reason))) [
      | inl f ↦ inr (reason_required, ground arith, ground arith)
      | inr u ↦
          let ps = (split_of x.splits input.label).payments in
          elim (Option-cases (find_payment ps input.payment)) [
            | inl f ↦ inr (payment_not_found, ground arith, ground arith)
            | inr (o, v) ↦ elim (Result-cases (check_void o ps)) [
              | inr (e1, f) ↦ inr (e1, ground arith, ground arith)
              | inl (_, w) ↦
                  elim (Result-cases
                    (void_at_terminal d (request_of input x o id o.amount) o now)) [
                      | inr (e1, f) ↦ inr (e1, ground arith, ground arith)
                      | inl (ref, z) ↦
                          elim (Result-cases (
                            update_bill now (
                              with_payments x input.label (
                                mark_voided ps input.payment
                                ++ void_entry o id ref.at input.actor (trim input.reason)
                                    ref.reference
                                  ∷ [])))) [
                                    | inr (e1, f) ↦ inr (e1, ground arith, ground arith)
                                    | inl (y, q) ↦ inl (
                                      x,
                                      y,
                                      record {
                                        original = o;
                                        answer = ref;
                                        loaded = e;
                                        found = v;
                                        fits = w;
                                        given = z;
                                        posted = q;
                                        gives = ground arith;
                                        saved = ground arith;
                                      },
                                    )
                                  ]
                    ]
            ]
          ]
    ]
  ]
