-- ===== src/Billing/Payments/Outcome/Record.antt =====
-- Every branch of `recordSplitPaymentImpl`.
use restaurant_pos.Base.{
  ◌&&◌, ltb, subst, ℕ, ◌≡◌, true, some, arith, subst, inl, inr, ◌⊎◌, Bool-cases, Option-cases,
}
use restaurant_pos.Base.Table.{get, put}
use restaurant_pos.Base.Int.{pos, pos_part, ltb_ℤ}
use restaurant_pos.Base.Result.{Result, ok, Result-cases, amount_not_positive, bill_not_found}
use restaurant_pos.Money.{round2}
use restaurant_pos.Store.{Store}
use restaurant_pos.Billing.Types.{split_of, a, b, c, Bill, SplitLabel, a, b, c, split_of}
use restaurant_pos.Billing.Update.{update_bill}
use restaurant_pos.Billing.Devices.{Devices, Request, Taken}
use restaurant_pos.Billing.Access.{load_bill, save_bill, append_billing_audit, record_audit_event}
use restaurant_pos.Billing.Payments.Record.{
  PaymentInput, record_split_payment, take_payment, open_drawer_for, post_debt, push_payment,
  or_now, request_for, as_debt,
}
use restaurant_pos.Billing.Payments.Ledger.{new_payment}
use restaurant_pos.Billing.Access.{append_debt}
use restaurant_pos.Billing.Payments.Outcome.{
  Settleable, update_bill-Settleable, Refused, update_bill-Settleable,
}

open_drawer_for-bills :
    (d : Devices) (r : Request) (s : Store) → (open_drawer_for d r s).1.bills ≡ s.bills
unfolding open_drawer_for append_billing_audit record_audit_event
open_drawer_for-bills d r s = ground arith

open_drawer_for-debts :
    (d : Devices) (r : Request) (s : Store) → (open_drawer_for d r s).1.debts ≡ s.debts
unfolding open_drawer_for append_billing_audit record_audit_event
open_drawer_for-debts d r s = ground arith

post_debt-bills :
    (input : PaymentInput) (at now : ℕ) (x : Bill) (s : Store)
    → (post_debt input at now x s).1.bills ≡ s.bills
unfolding post_debt append_debt record_audit_event
post_debt-bills input at now x s = ground arith

as_debt-Settleable :
    (x : Bill) (l : SplitLabel) → Settleable x.splits → Settleable (as_debt x l).splits
as_debt-Settleable x a s = record { split_a = s.split_a; split_b = s.split_b; split_c = s.split_c }
as_debt-Settleable x b s = record { split_a = s.split_a; split_b = s.split_b; split_c = s.split_c }
as_debt-Settleable x c s = record { split_a = s.split_a; split_b = s.split_b; split_c = s.split_c }

pub post_debt-Settleable :
    (input : PaymentInput) (at now : ℕ) (x y : Bill) (s : Store)
    → (post_debt input at now x s).0 ≡ ok y
    → Settleable x.splits
    → Settleable y.splits
unfolding post_debt append_debt record_audit_event
post_debt-Settleable input at now x y s h sound =
    elim (Bool-cases (input.create_debt && ltb 0 (split_of x.splits input.label).unpaid_balance)) [
      | inr f ↦ let same : x ≡ y = ground arith in subst (λ v. Settleable v.splits) same sound
      | inl t ↦
          update_bill-Settleable now (as_debt x input.label) y (ground arith)
            (as_debt-Settleable x input.label sound)
    ]

module _ (d : Devices) (input : PaymentInput) (id now : ℕ) where
  -- How a payment got through: the amount is positive, the terminal answered, the payment was posted
  -- before the repricing that gave `priced`, what was still owed became a debt when asked, which gave
  -- `y`, and `y` was saved.
  pub record Recorded (s : Store) (r : Result Bill × Store) (x y : Bill) : Type 0 where
    pub answer : Taken
    pub priced : Bill
    pub before_debt : Store
    pub loaded : get s.bills input.session ≡ some x
    pub positive : ltb_ℤ (pos 0) input.amount ≡ true
    pub taken :
        take_payment d
          (request_for input x id (pos_part (round2 input.amount)))
          (or_now input.paid_at now)
        ≡ ok answer
    pub drawer :
        (open_drawer_for d (request_for input x id (pos_part (round2 input.amount))) s).0 ≡ ok tt
    pub posted :
        update_bill now (
          push_payment x input.label (
            new_payment id
              (pos_part (round2 input.amount))
              input.method
              answer.at
              input.actor
              answer.reference))
        ≡ ok priced
    pub owed : (post_debt input answer.at now priced before_debt).0 ≡ ok y
    pub gives : r.0 ≡ ok y
    pub saved : r.1.bills ≡ put s.bills y.session y
    pub earlier : before_debt.debts ≡ s.debts
    pub debts : r.1.debts ≡ (post_debt input answer.at now priced before_debt).1.debts

  -- A payment either fails, and then no bill changed; or the amount is positive, the device took
  -- it, the payment was appended before the repricing, what was still owed became a debt if that
  -- was asked, and of the bills only the resulting one was saved.
  pub record_split_payment_cases :
      (s : Store)
      → let r = record_split_payment d input id now s in
        ((x : Bill) × (y : Bill) × Recorded s r x y) ⊎ Refused s r
  unfolding record_split_payment load_bill save_bill append_billing_audit
  record_split_payment_cases s = elim (Option-cases (get s.bills input.session)) [
    | inl e ↦ inr (bill_not_found, ground arith, ground arith)
    | inr (x, e) ↦ elim (Bool-cases (ltb_ℤ (pos 0) input.amount)) [
      | inr f ↦ inr (amount_not_positive, ground arith, ground arith)
      | inl t ↦
          let amount = pos_part (round2 input.amount) in
          let at = or_now input.paid_at now in
          let q = request_for input x id amount in
          elim (Result-cases (take_payment d q at)) [
            | inr (e1, f) ↦ inr (e1, ground arith, ground arith)
            | inl (ref, z) ↦
                let kept = open_drawer_for-bills d q s in
                elim (Result-cases (open_drawer_for d q s).0) [
                  | inr (e1, f) ↦ inr (e1, ground arith, ground arith)
                  | inl (_, w) ↦
                      let mid = (open_drawer_for d q s).1 in
                      elim (Result-cases (
                        update_bill now (
                          push_payment x input.label (
                            new_payment id amount input.method ref.at input.actor
                              ref.reference)))) [
                                | inr (e1, f) ↦ inr (e1, ground arith, ground arith)
                                | inl (priced, v) ↦
                                    let same = post_debt-bills input ref.at now priced mid in
                                    elim (Result-cases (post_debt input ref.at now priced mid).0) [
                                      | inr (e1, f) ↦ inr (e1, ground arith, ground arith)
                                      | inl (y, u) ↦ inl (
                                        x,
                                        y,
                                        record {
                                          answer = ref;
                                          priced = priced;
                                          before_debt = mid;
                                          loaded = e;
                                          positive = t;
                                          taken = z;
                                          drawer = w;
                                          posted = v;
                                          owed = u;
                                          gives = ground arith;
                                          saved = ground arith;
                                          earlier = open_drawer_for-debts d q s;
                                          debts = ground arith;
                                        },
                                      )
                                    ]
                              ]
                ]
          ]
    ]
  ]
