-- ===== src/Tests/Floor.antt =====
-- Tables, orders, the kitchen's board and the stock at concrete inputs.
use restaurant_pos.Base.{
  ℕ, ◌+◌, ◌≤◌, ◌≡◌, refl, ◌≢◌, Bool, true, false, Option, none, some, List, [], ◌∷◌, ◌==◌, arith,
  length, every, if◌then◌else◌,
}
use restaurant_pos.Base.Int.{ℤ, ◌+ℤ◌}
use restaurant_pos.Base.Table.{get}
use restaurant_pos.Base.Text.{Text}
use restaurant_pos.Base.Result.{Result, ok, err, table_occupied}
use restaurant_pos.Store.{Store}
use restaurant_pos.Auth.Policy.{can, void_prepared_items}
use restaurant_pos.Billing.Types.{Bill}
use restaurant_pos.Billing.Access.{orders_of}
use restaurant_pos.Billing.Update.{is_editable}
use restaurant_pos.Billing.Editing.Cancel.{voided_bill}
use restaurant_pos.Tables.Types.{TableSession, closed}
use restaurant_pos.Tables.Sessions.{
  open_table_session, close_table_session, is_final, is_bill_complete,
}
use restaurant_pos.Tables.Closing.{close_table_session_settled}
use restaurant_pos.Kds.Types.{ItemState, ready}
use restaurant_pos.Kds.Board.{Board, get_state, sync_board, board_of, progress_or, default_progress}
use restaurant_pos.Orders.Types.{Order, in_preparation, delivered, cancelled, kitchen}
use restaurant_pos.Kds.Laws.{sync_board_shows}
use restaurant_pos.Orders.Laws.{Step}
use restaurant_pos.Orders.Transition.{transition_order}
use restaurant_pos.Orders.Cancel.{cancel_order, was_prepared}
use restaurant_pos.Orders.Life.{transition_order_moves, cancel_order_guarded}
use restaurant_pos.Orders.Deduct.{deduct_items}
use restaurant_pos.Orders.Once.{deduct_items_once}
use restaurant_pos.Inventory.Types.{on_in_preparation, Movement, wastage}
use restaurant_pos.Inventory.Ledger.{MovementInput, append_stock_movement, is_deducted}
use restaurant_pos.Inventory.Balance.{NotBelow, append_stock_movement-NotBelow}
use restaurant_pos.Tests.Data.{store, order, priced_bill, waiter, session, delivery, value_of}

abbrev map_result : (TableSession → ℕ) → Result TableSession → Result ℕ
map_result f (ok x) = ok (f x)
map_result f (err e) = err e

-- The order is delivered and the bill void.
abbrev finished : Store
finished = record store {
  orders = (3, record order { status = delivered }) ∷ [];
  bills = (7, voided_bill 150 priced_bill) ∷ [];
}

abbrev closing : Result TableSession × Store
closing = close_table_session waiter 7 200 finished

close_table_session_settled_example :
    (every is_final (orders_of finished 7) ≡ true)
    × ((x : Bill) → get finished.bills 7 ≡ some x → is_bill_complete x ≡ true)
    × (get finished.bills 7 ≡ none → orders_of finished 7 ≡ [])
    × (get closing.1.sessions (value_of closing.0 session).id ≡ some (value_of closing.0 session))
    × ((value_of closing.0 session).status ≡ closed)
unfolding close_table_session can restaurant_pos.Auth.Policy.grants voided_bill
close_table_session_settled_example =
    close_table_session_settled waiter 7 200 finished closing.1 (value_of closing.0 session) refl

-- The kitchen has item 31 ready; item 30 was removed from the order.
abbrev cooked : ItemState
cooked = record {
  branch = 1;
  order = 3;
  item = 31;
  order_created_at = 50;
  prep_station = kitchen;
  quantity = 2000;
  progress = ready;
  updated_at = 90;
}

abbrev board : Board
board = record {
  items = record cooked { item = 30 } ∷ cooked ∷ record cooked { order = 4 } ∷ [];
  history = [];
}

sync_board_shows_example :
    (x : ItemState) × (get_state (sync_board order 95 board) 3 31 ≡ some x)
    × (x.progress ≡ progress_or (get_state board 3 31) (default_progress order.status))
sync_board_shows_example = sync_board_shows order 95 board 31 refl

abbrev cooking : Result Order × Store
cooking = transition_order true waiter 3 1 in_preparation 70 store

transition_order_moves_example :
    (x : Order) × (get store.orders 3 ≡ some x)
    × (x.version ≡ 1)
    × ((value_of cooking.0 order).version ≡ 2)
    × Step x.status (value_of cooking.0 order).status
    × ((value_of cooking.0 order).status ≡ in_preparation)
    × ((value_of cooking.0 order).items ≡ x.items)
    × ((value_of cooking.0 order).subtotal ≡ x.subtotal)
    × (get cooking.1.orders 3 ≡ some (value_of cooking.0 order))
unfolding transition_order can restaurant_pos.Auth.Policy.grants ◌+ℤ◌
transition_order_moves_example =
    transition_order_moves true waiter 3 1 in_preparation 70 store (value_of cooking.0 order) refl

abbrev why : Text
why = 99 ∷ []

abbrev dropping : Result Order × Store
dropping = cancel_order waiter 3 1 why none 70 store

cancel_order_guarded_example :
    (x : Order) × (get store.orders 3 ≡ some x)
    × (x.version ≡ 1)
    × ((value_of dropping.0 order).version ≡ 2)
    × Step x.status (value_of dropping.0 order).status
    × ((value_of dropping.0 order).status ≡ cancelled)
    × (was_prepared (board_of store) x ≡ true → can waiter void_prepared_items ≡ true)
    × ((at : ℕ) (b : Bill)
        → x.session ≡ some at
        → get store.bills at ≡ some b
        → is_editable b ≡ true)
unfolding cancel_order can restaurant_pos.Auth.Policy.grants restaurant_pos.Base.Text.trim
    is_editable restaurant_pos.Billing.Update.update_bill
    restaurant_pos.Billing.Splits.Defs.apply_bill_level_pricing
    restaurant_pos.Billing.Splits.Defs.charges_on restaurant_pos.Billing.Pricing.apply_promotions
    restaurant_pos.Billing.Editing.Items.new_bill
    restaurant_pos.Billing.Pricing.compute_promotion_discount restaurant_pos.Billing.Update.state_of
    restaurant_pos.Billing.Splits.Defs.price_split restaurant_pos.Billing.Lines.calculate_line_item
    restaurant_pos.Money.gross_of restaurant_pos.Money.round2
    restaurant_pos.Money.Allocate.allocate_amount restaurant_pos.Money.service_of
cancel_order_guarded_example =
    cancel_order_guarded waiter 3 1 why none 70 store (value_of dropping.0 order) refl

abbrev deducted : Store
deducted = (deduct_items true order on_in_preparation 6 70 order.items store).1

deduct_items_once_example :
    (every (λ i. is_deducted deducted.stock i.id on_in_preparation) order.items ≡ true)
    × (deduct_items true order on_in_preparation 6 80 order.items deducted ≡ (ok tt, deducted))
unfolding deduct_items ◌+ℤ◌ restaurant_pos.Inventory.Ledger.current_balance
deduct_items_once_example = deduct_items_once true order on_in_preparation 6 70 80 store refl

-- Four units are thrown away.
abbrev spoiled : MovementInput
spoiled = record {
  item = 9;
  kind = wastage;
  delta = ℤ.negsuc 3_999_999;
  reference = none;
  receiving = none;
  unit_cost = none;
  key = none;
}

abbrev thrown : Result Movement × Store
thrown = append_stock_movement spoiled (some 5) 80 2 store

append_stock_movement-NotBelow_example : NotBelow thrown.1.stock 9
unfolding append_stock_movement ◌+ℤ◌ restaurant_pos.Inventory.Ledger.current_balance
append_stock_movement-NotBelow_example =
    append_stock_movement-NotBelow spoiled (some 5) 80 2 9 store thrown.1
      (value_of thrown.0 delivery) refl refl refl (omega arith)

-- The table 2 of the branch 1 is occupied, and is opened again under the branch 9.
occupied_here : (open_table_session waiter 2 4 none 8 60 store).0 ≡ err table_occupied
unfolding open_table_session can restaurant_pos.Auth.Policy.grants
occupied_here = refl

opened_elsewhere :
    map_result (λ x. x.table) (open_table_session waiter 2 4 (some 9) 8 60 store).0 ≡ ok 2
unfolding open_table_session can restaurant_pos.Auth.Policy.grants
opened_elsewhere = refl
