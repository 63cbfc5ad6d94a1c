-- ===== src/Orders/Guarded.antt =====
-- What a cancellation that goes through went past.
use restaurant_pos.Base.{
  ◌||◌, if◌then◌else◌, ℕ, ◌≡◌, ◌∙◌, ap, inl, inr, true, not, Option, some, arith, Bool-cases,
  Option-cases,
}
use restaurant_pos.Base.Text.{Text, trim}
use restaurant_pos.Base.Table.{get}
use restaurant_pos.Base.Result.{Result-cases, ok}
use restaurant_pos.Store.{Store, AuditAction}
use restaurant_pos.Auth.Policy.{User, can, edit_order, void_prepared_items}
use restaurant_pos.Orders.Types.{Order}
use restaurant_pos.Orders.Update.{update_order, load_order, branch_matches}
use restaurant_pos.Billing.Access.{record_audit_event}
use restaurant_pos.Billing.Payments.Reverse.{is_blank}
use restaurant_pos.Kds.Board.{board_of}
use restaurant_pos.Orders.Cancel.{
  cancel_order, carry_out_cancel, mark_cancelled, check_bill, was_prepared, remove_from_bill,
}
use restaurant_pos.Orders.Laws.{Changed, update_order-eq-ok}

check_bill-store : (o : Order) (s : Store) → (check_bill o s).1 ≡ s
unfolding check_bill
check_bill-store o s = ground arith

-- Why a cancellation got through.
pub record Cancelled (user : User) (s : Store) (id expected now : ℕ) (text : Text)
    (approver : Option ℕ) (y : Order) : Type 0 where
  pub before : Order
  pub by : Option ℕ
  pub found : get s.orders id ≡ some before
  pub prepared : was_prepared (board_of s) before ≡ true → can user void_prepared_items ≡ true
  pub bill : (check_bill before s).0 ≡ ok tt
  pub change : Changed s id expected now (mark_cancelled user by (trim text) now) y

carry_out_cancel-Changed :
    (user : User) (id expected : ℕ) (by : Option ℕ) (reason : Text) (now : ℕ) (s : Store)
    (y : Order)
    → (carry_out_cancel user id expected by reason now s).0 ≡ ok y
    → Changed s id expected now (mark_cancelled user by reason now) y
unfolding carry_out_cancel record_audit_event
carry_out_cancel-Changed user id expected by reason now s y h =
    let m = mark_cancelled user by reason now in
    elim (Result-cases (update_order id expected m now s).0) [
      | inr (c1, f) ↦ ground arith
      | inl (o, u) ↦
          let s2 = (update_order id expected m now s).1 in
          let s3 = (record_audit_event AuditAction.order_cancelled user.id o.id 0 now s2).1 in
          elim (Result-cases (remove_from_bill o.session o.items now s3).0) [
            | inr (c1, f) ↦ ground arith
            | inl (_, v) ↦
                let same : o ≡ y = ground arith in
                update_order-eq-ok id expected now m s y (u ∙ ap ok same)
          ]
    ]

pub cancel_order-Cancelled :
    (user : User) (id expected : ℕ) (text : Text) (approver : Option ℕ) (now : ℕ) (s : Store)
    (y : Order)
    → (cancel_order user id expected text approver now s).0 ≡ ok y
    → Cancelled user s id expected now text approver y
unfolding cancel_order load_order
cancel_order-Cancelled user id expected text approver now s y h =
    elim (Bool-cases (can user edit_order)) [
      | inr f ↦ ground arith
      | inl a ↦ elim (Bool-cases (is_blank (trim text))) [
        | inl f ↦ ground arith
        | inr b ↦ elim (Option-cases (get s.orders id)) [
          | inl f ↦ ground arith
          | inr (x, e) ↦ elim (Bool-cases (branch_matches user x.branch)) [
            | inr f ↦ ground arith
            | inl c ↦
                let kept = check_bill-store x s in
                elim (Result-cases (check_bill x s).0) [
                  | inr (c1, f) ↦ ground arith
                  | inl (_, g) ↦
                      elim (Bool-cases
                        (not (was_prepared (board_of s) x) || can user void_prepared_items)) [
                          | inr f ↦ ground arith
                          | inl k ↦
                              let by =
                                if was_prepared (board_of s) x then some user.id else approver in
                              let rest : (carry_out_cancel user id expected by (trim text) now s).0
                                  ≡ ok y =
                                ground arith in
                              record {
                                before = x;
                                by = by;
                                found = e;
                                prepared = λ w. ground arith;
                                bill = g;
                                change =
                                    carry_out_cancel-Changed user id expected by (trim text) now s y
                                      rest;
                              }
                        ]
                ]
          ]
        ]
      ]
    ]
