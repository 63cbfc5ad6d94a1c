-- ===== src/Orders/Life.antt =====
-- The life of an order: its statuses only move forward, and each change is made once.
use restaurant_pos.Base.{ℕ, ◌+◌, ◌≤◌, ◌≡◌, sym, ◌∙◌, ap, Bool, true, Option, some, arith, subst}
use restaurant_pos.Base.Text.{Text, trim}
use restaurant_pos.Base.Table.{get}
use restaurant_pos.Base.Result.{ok}
use restaurant_pos.Store.{Store}
use restaurant_pos.Auth.Policy.{User, can, void_prepared_items}
use restaurant_pos.Billing.Types.{Bill}
use restaurant_pos.Billing.Update.{is_editable, assert_bill_editable}
use restaurant_pos.Kds.Board.{board_of}
use restaurant_pos.Orders.Types.{
  Order, OrderStatus, pending, in_preparation, completed, delivered, cancelled,
}
use restaurant_pos.Orders.Transition.{transition_order}
use restaurant_pos.Orders.Cancel.{cancel_order, was_prepared, check_bill}
use restaurant_pos.Orders.Guarded.{cancel_order-Cancelled}
use restaurant_pos.Orders.Stored.{transition_order-stored}
use restaurant_pos.Orders.Laws.{
  Step, start, finish, deliver, cancel, transition_order-Changed, move_status-Step,
  mark_cancelled-Step,
}

-- A run of steps.
pub data Reach (x : OrderStatus) : OrderStatus → Type 0 where
  here : Reach x x
  later : {y z : OrderStatus} → Reach x y → Step y z → Reach x z

pub rank : OrderStatus → ℕ
rank pending = 0
rank in_preparation = 1
rank completed = 2
rank delivered = 3
rank cancelled = 4

Step-rank : {x y : OrderStatus} → Step x y → rank x + 1 ≤ rank y
unfolding rank
Step-rank start = omega arith
Step-rank finish = omega arith
Step-rank deliver = omega arith
Step-rank (cancel x h) = ground arith

-- However an order's status changes, it never comes back to an earlier one.
pub Reach-rank : (x y : OrderStatus) → Reach x y → rank x ≤ rank y
Reach-rank x y r = go r
  where
    go : {y : OrderStatus} → Reach x y → rank x ≤ rank y
    go here = omega arith
    go (later r s) = omega (arith, go r, Step-rank s)

-- A status transition that goes through was made on the version that the caller saw, moves the order
-- along a step to the status asked for, keeps its items and its subtotal, and makes the next version;
-- the order that it gives back is the one that is stored afterwards.
pub transition_order_moves :
    (link : Bool) (user : User) (id expected : ℕ) (next : OrderStatus) (now : ℕ) (s : Store)
    (y : Order)
    → (transition_order link user id expected next now s).0 ≡ ok y
    → (x : Order) × (get s.orders id ≡ some x)
      × (x.version ≡ expected)
      × (y.version ≡ expected + 1)
      × Step x.status y.status
      × (y.status ≡ next)
      × (y.items ≡ x.items)
      × (y.subtotal ≡ x.subtotal)
      × (get (transition_order link user id expected next now s).1.orders id ≡ some y)
transition_order_moves link user id expected next now s y h =
    let c = transition_order-Changed link user id expected next now s y h in
    let (step, to, items, subtotal) = move_status-Step user now next c.was c.draft c.drafted in
    (
      c.was,
      c.found,
      c.version,
      ap (λ o. o.version) (sym c.gives) ∙ ap (λ v. v + 1) c.version,
      subst (λ o. Step c.was.status o.status) c.gives step,
      ap (λ o. o.status) (sym c.gives) ∙ to,
      ap (λ o. o.items) (sym c.gives) ∙ items,
      ap (λ o. o.subtotal) (sym c.gives) ∙ subtotal,
      transition_order-stored link user id expected next now s y h,
    )

-- A cancellation that goes through was made on the version that the caller saw, on an order that was
-- not cancelled and whose bill, if its session has one, may still change; if the order or one of its
-- items was prepared, the user may void prepared items.
pub cancel_order_guarded :
    (user : User) (id expected : ℕ) (text : Text) (approver : Option ℕ) (now : ℕ) (s : Store)
    (y : Order)
    → (cancel_order user id expected text approver now s).0 ≡ ok y
    → (x : Order) × (get s.orders id ≡ some x)
      × (x.version ≡ expected)
      × (y.version ≡ expected + 1)
      × Step x.status y.status
      × (y.status ≡ cancelled)
      × (was_prepared (board_of s) x ≡ true → can user void_prepared_items ≡ true)
      × ((session : ℕ) (b : Bill)
          → x.session ≡ some session
          → get s.bills session ≡ some b
          → is_editable b ≡ true)
unfolding check_bill assert_bill_editable
cancel_order_guarded user id expected text approver now s y h =
    let k = cancel_order-Cancelled user id expected text approver now s y h in
    let c = k.change in
    let (step, to) = mark_cancelled-Step user now k.by (trim text) c.was c.draft c.drafted in
    let same : k.before ≡ c.was = ground (arith, k.found, c.found) in
    (
      c.was,
      c.found,
      c.version,
      ap (λ o. o.version) (sym c.gives) ∙ ap (λ v. v + 1) c.version,
      subst (λ o. Step c.was.status o.status) c.gives step,
      ap (λ o. o.status) (sym c.gives) ∙ to,
      subst (λ o. was_prepared (board_of s) o ≡ true → can user void_prepared_items ≡ true) same
          k.prepared,
      (λ session b at_session found.
          let at_before : k.before.session ≡ some session = ap (λ o. o.session) same ∙ at_session in
          ground (arith, k.bill, at_before, found)),
    )
