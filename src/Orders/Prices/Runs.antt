-- ===== src/Orders/Prices/Runs.antt =====
-- A run of order operations, and the prices of the stored orders after it.
use restaurant_pos.Base.{ℕ, Bool, Option, List, [], ◌∷◌}
use restaurant_pos.Base.Text.{Text}
use restaurant_pos.Store.{Store}
use restaurant_pos.Store.Kept.{Keeps}
use restaurant_pos.Auth.Policy.{User}
use restaurant_pos.Menu.Types.{Menu}
use restaurant_pos.Orders.Types.{OrderStatus}
use restaurant_pos.Orders.Transition.{transition_order}
use restaurant_pos.Orders.Cancel.{cancel_order, void_order_item}
use restaurant_pos.Orders.Create.{CreateOrderInput, create_order_draft}
use restaurant_pos.Orders.Edit.{EditInput, edit_order_before_payment}
use restaurant_pos.Orders.Prices.{AllPriced}
use restaurant_pos.Orders.Prices.Edit.{edit-AllPriced, create-AllPriced}
use restaurant_pos.Orders.Prices.Cancel.{cancel-AllPriced, void-AllPriced}
use restaurant_pos.Orders.Prices.Move.{transition-AllPriced}

-- One call of an operation on orders, with the menu and the user of that moment.
pub data OrderOperation : Type 0 where
  create : Menu → User → CreateOrderInput → ℕ → ℕ → ℕ → OrderOperation
  edit : Menu → User → ℕ → EditInput → ℕ → OrderOperation
  transition : Bool → User → ℕ → ℕ → OrderStatus → ℕ → OrderOperation
  cancel : User → ℕ → ℕ → Text → Option ℕ → ℕ → OrderOperation
  void_item : User → ℕ → ℕ → ℕ → Text → ℕ → OrderOperation

module _ (text_of_id : ℕ → Text) where
  -- The store after the call, whether or not it goes through
  unfoldable pub after_operation : OrderOperation → Store → Store
  unfolding create_order_draft edit_order_before_payment transition_order cancel_order
      void_order_item
  after_operation (create m user input branch id now) s =
      (create_order_draft text_of_id m user input branch id now s).1
  after_operation (edit m user id input now) s =
      (edit_order_before_payment text_of_id m user id input now s).1
  after_operation (transition link user id expected next now) s =
      (transition_order link user id expected next now s).1
  after_operation (cancel user id expected text approver now) s =
      (cancel_order user id expected text approver now s).1
  after_operation (void_item user id item expected text now) s =
      (void_order_item user id item expected text now s).1

  unfoldable pub after_operations : List OrderOperation → Store → Store
  unfolding after_operation
  after_operations [] s = s
  after_operations (o ∷ os) s = after_operations os (after_operation o s)

  after_operation-AllPriced :
      (o : OrderOperation) (s : Store) → AllPriced s → AllPriced (after_operation o s)
  unfolding after_operation Keeps
  after_operation-AllPriced (create m user input branch id now) s h =
      create-AllPriced text_of_id m user input branch id now s h
  after_operation-AllPriced (edit m user id input now) s h =
      edit-AllPriced user now text_of_id m id input s h
  after_operation-AllPriced (transition link user id expected next now) s h =
      transition-AllPriced link user id expected next now s h
  after_operation-AllPriced (cancel user id expected text approver now) s h =
      cancel-AllPriced user now id expected text approver s h
  after_operation-AllPriced (void_item user id item expected text now) s h =
      void-AllPriced user now id item expected text s h

  -- However orders are created, edited, moved along, cancelled and voided item by item, whether or
  -- not each call goes through, the subtotal of every stored order is the sum of its line totals,
  -- and each line total is the quantity at the unit price, rounded to cents, if that was so at the
  -- start.
  pub after_operations-AllPriced :
      (os : List OrderOperation) (s : Store) → AllPriced s → AllPriced (after_operations os s)
  unfolding after_operations
  after_operations-AllPriced [] s h = h
  after_operations-AllPriced (o ∷ os) s h =
      after_operations-AllPriced os (after_operation o s) (after_operation-AllPriced o s h)
