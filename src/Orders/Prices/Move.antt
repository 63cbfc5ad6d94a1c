-- ===== src/Orders/Prices/Move.antt =====
-- Moving an order along its statuses, on the prices of the stored orders.
use restaurant_pos.Base.{ℕ, ◌≡◌, sym, ◌∙◌, ap, subst, Bool, Option, none, some, All}
use restaurant_pos.Base.Result.{ok, forbidden}
use restaurant_pos.Store.{lift}
use restaurant_pos.Store.Kept.{Keeps, Keeps-bind, Keeps-then}
use restaurant_pos.Auth.Policy.{User, can, transition_order_status}
use restaurant_pos.Inventory.Types.{Trigger}
use restaurant_pos.Orders.Types.{Order, OrderStatus}
use restaurant_pos.Orders.Deduct.{deduction_trigger, can_complete}
use restaurant_pos.Orders.Update.{recalc_subtotal, load_order}
use restaurant_pos.Orders.Laws.{move_status-Step}
use restaurant_pos.Orders.Priced.{LinePriced, Priced}
use restaurant_pos.Orders.Stored.{take_stock-Keeps}
use restaurant_pos.Orders.Transition.{check_stock, move_status, transition_order}
use restaurant_pos.Orders.Prices.{
  OrdersPriced, AllPriced, update_order-AllPriced, sync-AllPriced, check-AllPriced, pure-AllPriced,
  load_order-AllPriced, gets-AllPriced,
}

check_stock-AllPriced :
    (link : Bool) (id : ℕ) (t : Option Trigger) → Keeps AllPriced (check_stock link id t)
unfolding check_stock Keeps
check_stock-AllPriced link id none = λ s h. h
check_stock-AllPriced link id (some t) =
    Keeps-bind AllPriced (load_order id) (λ current s. lift (can_complete link s.stock t current) s)
      (load_order-AllPriced id) (λ current s h. h)

move_status-Priced :
    (user : User) (now : ℕ) (next : OrderStatus) (o d : Order)
    → Priced o
    → move_status user next now o ≡ ok d
    → Priced d
unfolding Priced
move_status-Priced user now next o d h e =
    let (_, _, items, subtotal) = move_status-Step user now next o d e in
    (subst (All LinePriced) (sym items) h.0, subtotal ∙ (h.1 ∙ ap recalc_subtotal (sym items)))

pub transition-AllPriced :
    (link : Bool) (user : User) (id expected : ℕ) (next : OrderStatus) (now : ℕ)
    → Keeps AllPriced (transition_order link user id expected next now)
unfolding transition_order
transition-AllPriced link user id expected next now =
    Keeps-then AllPriced _ _ (check-AllPriced (can user transition_order_status) forbidden) (
      Keeps-bind AllPriced _ _ (gets-AllPriced (λ s. deduction_trigger s.stock.trigger_policy next))
        λ t. Keeps-then AllPriced _ _ (check_stock-AllPriced link id t) (
          Keeps-bind AllPriced _ _
            (update_order-AllPriced id expected now (move_status user next now)
              (move_status-Priced user now next))
            λ o.
              Keeps-then AllPriced _ _ (take_stock-Keeps OrdersPriced link user o t now)
                (Keeps-then AllPriced _ _ (sync-AllPriced o now) (pure-AllPriced o))))
