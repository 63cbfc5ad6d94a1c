-- ===== src/Orders/Transition.antt =====
-- `ROLE_STATUS_FLOW` and `transitionOrderStatusImpl` of backend/orders/service.ts.
use restaurant_pos.Base.{ℕ, Bool, true, false, Option, none, some, some_of}
use restaurant_pos.Base.Result.{
  Result, ok, and_then, check, forbidden, other_branch, forbidden_transition,
}
use restaurant_pos.Store.{M, pure, gets, lift, ◌>>=◌, ◌>>◌}
use restaurant_pos.Auth.Policy.{
  User, Role, cashier, waitstaff, shift_lead, manager, admin, superadmin, kitchen, bar, can,
  transition_order_status,
}
use restaurant_pos.Inventory.Types.{Trigger}
use restaurant_pos.Kds.Board.{sync_order_into_kds}
use restaurant_pos.Orders.Types.{
  Order, OrderStatus, pending, in_preparation, completed, delivered, status_transition,
}
use restaurant_pos.Orders.Update.{load_order, update_order, log_change, branch_matches}
use restaurant_pos.Orders.Deduct.{deduction_trigger, can_complete, deduct_items}

abbrev pub front_of_house : OrderStatus → OrderStatus → Bool
front_of_house pending in_preparation = true
front_of_house in_preparation completed = true
front_of_house completed delivered = true
front_of_house _ _ = false

abbrev pub prep_station_flow : OrderStatus → OrderStatus → Bool
prep_station_flow in_preparation completed = true
prep_station_flow _ _ = false

unfoldable pub role_status_flow : Role → OrderStatus → OrderStatus → Bool
role_status_flow cashier x y = front_of_house x y
role_status_flow waitstaff x y = front_of_house x y
role_status_flow shift_lead x y = front_of_house x y
role_status_flow manager x y = front_of_house x y
role_status_flow admin x y = front_of_house x y
role_status_flow superadmin x y = front_of_house x y
role_status_flow kitchen x y = prep_station_flow x y
role_status_flow bar x y = prep_station_flow x y
role_status_flow _ x y = false

-- The change of status, as `updateOrderWithVersionCheck` applies it to the stored order
unfoldable pub move_status : User → OrderStatus → ℕ → Order → Result Order
unfolding role_status_flow
move_status user next now o = and_then (check (branch_matches user o.branch) other_branch) λ _.
    and_then
      (check (some_of (λ r. role_status_flow r o.status next) user.roles) forbidden_transition)
      λ _.
        ok
          (record (log_change
            (record {
              at = now;
              actor = user.id;
              approver = none;
              change = status_transition o.status next;
              reason = none;
            })
            o) { status = next })

unfoldable pub check_stock : Bool → ℕ → Option Trigger → M (Unit {0})
unfolding load_order can_complete
check_stock link id none = pure tt
check_stock link id (some t) = do
  current ← load_order id
  (λ s. lift (can_complete link s.stock t current) s)

unfoldable pub take_stock : Bool → User → Order → Option Trigger → ℕ → M (Unit {0})
unfolding deduct_items
take_stock link user o none now = pure tt
take_stock link user o (some t) now = deduct_items link o t user.id now o.items

unfoldable pub transition_order : Bool → User → ℕ → ℕ → OrderStatus → ℕ → M Order
unfolding deduction_trigger check_stock update_order move_status take_stock sync_order_into_kds
transition_order link user id expected next now = do
  lift (check (can user transition_order_status) forbidden)
  t ← gets (λ s. deduction_trigger s.stock.trigger_policy next)
  check_stock link id t
  o ← update_order id expected (move_status user next now) now
  take_stock link user o t now
  sync_order_into_kds o now
  pure o
