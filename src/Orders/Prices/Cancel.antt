-- ===== src/Orders/Prices/Cancel.antt =====
-- Cancelling an order and voiding an item, on the prices of the stored orders.
use restaurant_pos.Base.{
  ℕ, ◌≡◌, sym, ◌∙◌, ap, subst, inl, inr, not, Option, none, some, ◌==◌, All, All-select, select,
  find, ◌||◌, if◌then◌else◌, arith, Bool-cases, Option-cases,
}
use restaurant_pos.Base.Text.{Text, trim}
use restaurant_pos.Base.Table.{get}
use restaurant_pos.Base.Result.{ok, forbidden, other_branch, prepared_items, reason_required}
use restaurant_pos.Store.{AuditAction}
use restaurant_pos.Store.Kept.{Keeps, Keeps-bind, Keeps-then}
use restaurant_pos.Auth.Policy.{User, can, edit_order, void_prepared_items}
use restaurant_pos.Billing.Payments.Reverse.{is_blank}
use restaurant_pos.Orders.Types.{Order, is_cancelled}
use restaurant_pos.Orders.Update.{branch_matches, recalc_subtotal}
use restaurant_pos.Orders.Cancel.{
  cancel_order, carry_out_cancel, mark_cancelled, drop_item, void_order_item, carry_out_void,
  check_session, remove_one,
}
use restaurant_pos.Orders.Priced.{LinePriced, Priced}
use restaurant_pos.Orders.Cancel.{was_prepared}
use restaurant_pos.Kds.Board.{board_of}
use restaurant_pos.Tables.Access.{require_open_session}
use restaurant_pos.Orders.Prices.{
  OrdersPriced, AllPriced, update_order-AllPriced, remove_voided_item-AllPriced,
  remove_items-AllPriced, check_bill-AllPriced, audit-AllPriced, sync-AllPriced, check-AllPriced,
  pure-AllPriced, load_order-AllPriced, gets-AllPriced,
}

module _ (user : User) (now : ℕ) where
  mark_cancelled-Priced :
      (approver : Option ℕ) (reason : Text) (o d : Order)
      → Priced o
      → mark_cancelled user approver reason now o ≡ ok d
      → Priced d
  unfolding mark_cancelled Priced
  mark_cancelled-Priced approver reason o d h e = elim (Bool-cases (is_cancelled o.status)) [
    | inl t ↦ ground arith
    | inr f ↦
        let items : o.items ≡ d.items = ground arith in
        let subtotal : o.subtotal ≡ d.subtotal = ground arith in
        (subst (All LinePriced) items h.0, sym subtotal ∙ (h.1 ∙ ap recalc_subtotal items))
  ]

  drop_item-Priced :
      (item : ℕ) (reason : Text) (o d : Order)
      → Priced o
      → drop_item user item reason now o ≡ ok d
      → Priced d
  unfolding drop_item Priced
  drop_item-Priced item reason o d h e = elim (Bool-cases (is_cancelled o.status)) [
    | inl t ↦ ground arith
    | inr f ↦ elim (Option-cases (find (λ i. i.id == item) o.items)) [
      | inl e1 ↦ ground arith
      | inr (i, e1) ↦
          let items : select (λ i. not (i.id == item)) o.items ≡ d.items = ground arith in
          let subtotal : d.subtotal ≡ recalc_subtotal d.items = ground arith in
          (subst (All LinePriced) items (All-select LinePriced _ o.items h.0), subtotal)
    ]
  ]

  pub cancel-AllPriced :
      (id expected : ℕ) (text : Text) (approver : Option ℕ)
      → Keeps AllPriced (cancel_order user id expected text approver now)
  unfolding cancel_order carry_out_cancel
  cancel-AllPriced id expected text approver =
      Keeps-then AllPriced _ _ (check-AllPriced (can user edit_order) forbidden) (
        Keeps-then AllPriced _ _ (check-AllPriced (not (is_blank (trim text))) reason_required) (
          Keeps-bind AllPriced _ _ (load_order-AllPriced id) λ o.
            Keeps-then AllPriced _ _ (check-AllPriced (branch_matches user o.branch) other_branch) (
              Keeps-then AllPriced _ _ (check_bill-AllPriced o) (
                Keeps-bind AllPriced _ _ (gets-AllPriced (λ s. was_prepared (board_of s) o))
                  λ prepared.
                    Keeps-then AllPriced _ _
                      (check-AllPriced (not prepared || can user void_prepared_items)
                        prepared_items)
                      (Keeps-bind AllPriced _ _
                        (update_order-AllPriced id expected now _ (
                          mark_cancelled-Priced (if prepared then some user.id else approver)
                            (trim text)))
                        λ y.
                          Keeps-then AllPriced _ _
                            (audit-AllPriced AuditAction.order_cancelled user.id y.id 0 now)
                            (Keeps-then AllPriced _ _ (remove_items-AllPriced y.session y.items now)
                              (Keeps-then AllPriced _ _ (sync-AllPriced y now)
                                (pure-AllPriced y))))))))

  check_session-AllPriced : (o : Order) → Keeps AllPriced (check_session o)
  unfolding check_session require_open_session Keeps
  check_session-AllPriced o s h = subst OrdersPriced (sym same) h
    where
      same : (check_session o s).1.orders ≡ s.orders
      same = elim (Option-cases o.session) [
        | inl e ↦ ground arith
        | inr (x, e) ↦ elim (Option-cases (get s.sessions x)) [
          | inl e1 ↦ ground arith
          | inr (y, e1) ↦ ground arith
        ]
      ]

  remove_one-AllPriced :
      (session : Option ℕ) (item : ℕ) → Keeps AllPriced (remove_one session item now)
  remove_one-AllPriced none item = pure-AllPriced tt
  remove_one-AllPriced (some x) item = remove_voided_item-AllPriced x item now

  pub void-AllPriced :
      (id item expected : ℕ) (text : Text)
      → Keeps AllPriced (void_order_item user id item expected text now)
  unfolding void_order_item carry_out_void
  void-AllPriced id item expected text =
      Keeps-then AllPriced _ _ (check-AllPriced (can user void_prepared_items) forbidden) (
        Keeps-then AllPriced _ _ (check-AllPriced (not (is_blank (trim text))) reason_required) (
          Keeps-bind AllPriced _ _ (load_order-AllPriced id) λ o.
            Keeps-then AllPriced _ _ (check-AllPriced (branch_matches user o.branch) other_branch) (
              Keeps-then AllPriced _ _ (check_session-AllPriced o) (
                Keeps-bind AllPriced _ _
                  (update_order-AllPriced id expected now _ (drop_item-Priced item (trim text)))
                  λ y. Keeps-then AllPriced _ _ (remove_one-AllPriced y.session item) (
                    Keeps-then AllPriced _ _
                      (audit-AllPriced AuditAction.item_removed user.id y.id 0 now)
                      (Keeps-then AllPriced _ _ (sync-AllPriced y now) (pure-AllPriced y)))))))
