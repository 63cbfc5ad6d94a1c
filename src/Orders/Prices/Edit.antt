-- ===== src/Orders/Prices/Edit.antt =====
-- Creating and editing an order, on the prices of the stored orders.
use restaurant_pos.Base.{
  ℕ, ◌≡◌, refl, sym, subst, inl, inr, Option, none, some, List, All, arith, Option-cases,
}
use restaurant_pos.Base.Text.{Text}
use restaurant_pos.Base.Table.{get, put}
use restaurant_pos.Base.Result.{forbidden, other_branch, prepared_items}
use restaurant_pos.Store.{AuditAction}
use restaurant_pos.Store.Kept.{Keeps, Keeps-bind, Keeps-then, Keeps-lift, Keeps-modify}
use restaurant_pos.Auth.Policy.{User, can, edit_order}
use restaurant_pos.Menu.Types.{Menu}
use restaurant_pos.Orders.Types.{Order, OrderItem}
use restaurant_pos.Orders.Update.{branch_matches}
use restaurant_pos.Orders.Edit.{EditInput, apply_edit, carry_out_edit, edit_order_before_payment}
use restaurant_pos.Orders.Built.{build_order_items-LinePriced}
use restaurant_pos.Orders.Priced.{LinePriced, Priced, apply_edit-Priced}
use restaurant_pos.Auth.Policy.{create_order}
use restaurant_pos.Kds.Board.{board_of}
use restaurant_pos.Orders.Edit.{reduces_no_prepared}
use restaurant_pos.Settings.Normalize.{given, first_of}
use restaurant_pos.Tables.Types.{TableSession}
use restaurant_pos.Tables.Access.{require_open_session}
use restaurant_pos.Orders.Types.{ServiceMode, dine_in, takeout}
use restaurant_pos.Orders.Build.{build_order_items_from_menu}
use restaurant_pos.Orders.Create.{
  CreateOrderInput, session_of, new_order, store_order, create_order_draft, branch_of,
}
use restaurant_pos.Orders.Prices.{
  OrdersPriced, AllPriced, put-OrdersPriced, update_order-AllPriced, remove_ids-AllPriced,
  check_bill-AllPriced, audit-AllPriced, sync-AllPriced, check-AllPriced, pure-AllPriced,
  load_order-AllPriced, gets-AllPriced,
}

module _ (user : User) (now : ℕ) where
  carry_out_edit-AllPriced :
      (id : ℕ) (input : EditInput) (added : List OrderItem)
      → All LinePriced added
      → Keeps AllPriced (carry_out_edit user id input added now)
  unfolding carry_out_edit
  carry_out_edit-AllPriced id input added k =
      Keeps-bind AllPriced _ _
        (update_order-AllPriced id input.expected now (apply_edit user input added now)
          (λ o d h e. apply_edit-Priced user input now added o d h k e))
        λ o.
          Keeps-then AllPriced _ _ (audit-AllPriced AuditAction.order_edited user.id o.id 0 now) (
            Keeps-then AllPriced _ _ (remove_ids-AllPriced o.session input.remove_items now)
              (Keeps-then AllPriced _ _ (sync-AllPriced o now) (pure-AllPriced o)))

  pub edit-AllPriced :
      (text_of_id : ℕ → Text) (m : Menu) (id : ℕ) (input : EditInput)
      → Keeps AllPriced (edit_order_before_payment text_of_id m user id input now)
  unfolding edit_order_before_payment
  edit-AllPriced text_of_id m id input =
      Keeps-then AllPriced _ _ (check-AllPriced (can user edit_order) forbidden) (
        Keeps-bind AllPriced _ _ (load_order-AllPriced id) λ o.
          Keeps-then AllPriced _ _ (check-AllPriced (branch_matches user o.branch) other_branch) (
            Keeps-then AllPriced _ _ (check_bill-AllPriced o) (
              Keeps-bind AllPriced _ _
                (gets-AllPriced (λ s. reduces_no_prepared input (board_of s) o))
                λ unprepared. Keeps-then AllPriced _ _ (check-AllPriced unprepared prepared_items) (
                  Keeps-lift AllPriced _ _ λ added e. carry_out_edit-AllPriced id input added (
                    build_order_items-LinePriced text_of_id user o.branch m input.add_items added
                      e)))))

new_order-Priced :
    (user : User) (input : CreateOrderInput) (branch : ℕ) (session : Option TableSession)
    (items : List OrderItem) (id now : ℕ)
    → All LinePriced items
    → Priced (new_order user input branch session items id now)
unfolding Priced new_order
new_order-Priced user input branch session items id now h = (h, refl)

store_order-AllPriced : (o : Order) (now : ℕ) → Priced o → Keeps AllPriced (store_order o now)
unfolding store_order
store_order-AllPriced o now p =
    Keeps-then AllPriced _ _
      (Keeps-modify AllPriced (λ s. record s { orders = put s.orders o.id o })
        (λ s h. put-OrdersPriced s.orders o.id o h p))
      (Keeps-then AllPriced _ _ (sync-AllPriced o now) (pure-AllPriced o))

session_of-AllPriced : (input : CreateOrderInput) → Keeps AllPriced (session_of input)
unfolding session_of require_open_session Keeps
session_of-AllPriced input s h = subst OrdersPriced (sym (same input.service_mode input.session)) h
  where
    same :
        (mode : ServiceMode) (session : Option ℕ)
        → (session_of (record input { service_mode = mode; session = session }) s).1.orders
          ≡ s.orders
    same takeout session = ground arith
    same dine_in none = ground arith
    same dine_in (some x) = elim (Option-cases (get s.sessions x)) [
      | inl e1 ↦ ground arith
      | inr (y, e1) ↦ ground arith
    ]

pub create-AllPriced :
    (text_of_id : ℕ → Text) (m : Menu) (user : User) (input : CreateOrderInput) (current id now : ℕ)
    → Keeps AllPriced (create_order_draft text_of_id m user input current id now)
unfolding create_order_draft
create-AllPriced text_of_id m user input current id now =
    Keeps-then AllPriced _ _ (check-AllPriced (can user create_order) forbidden) (
      Keeps-bind AllPriced _ _ (session_of-AllPriced input) λ session.
        let branch =
          given (branch_of session) (given (first_of input.branch user.branch) current) in
        Keeps-then AllPriced _ _ (check-AllPriced (branch_matches user branch) other_branch) (
          Keeps-lift AllPriced (build_order_items_from_menu text_of_id user branch m input.items) _
            λ items e.
              store_order-AllPriced (new_order user input branch session items id now) now (
                new_order-Priced user input branch session items id now
                  (build_order_items-LinePriced text_of_id user branch m input.items items e))))
