-- ===== src/Tests/Kitchen.antt =====
-- The menu, and orders that are made, edited and served, at concrete inputs.
use restaurant_pos.Base.{
  All, length, ℕ, ◌≡◌, ◌≢◌, refl, sym, ◌∙◌, subst, inl, inr, Bool-cases, ◌==◌, some_of, true, false,
  none, some, List, [], ◌∷◌, arith,
}
use restaurant_pos.Base.Int.{pos}
use restaurant_pos.Base.Text.{Text}
use restaurant_pos.Base.Table.{get, Among, here, there}
use restaurant_pos.Base.Result.{Result, ok, err, price_places}
use restaurant_pos.Store.{Store}
use restaurant_pos.Auth.Policy.{User, can, transition_order_status}
use restaurant_pos.Billing.Types.{Bill}
use restaurant_pos.Billing.Update.{is_editable}
use restaurant_pos.Inventory.Types.{manual}
use restaurant_pos.Kds.Types.{ItemState, queued}
use restaurant_pos.Kds.Board.{Board, board_of}
use restaurant_pos.Kds.Snapshot.{active_view, shown_states, get_kds_snapshot}
use restaurant_pos.Kds.Tickets.{tally}
use restaurant_pos.Kds.Grouped.{OfStation, shows, get_kds_snapshot_groups}
use restaurant_pos.Menu.Types.{local_pos, taxed, Context, Category, MenuItem, Menu, ItemInput}
use restaurant_pos.Menu.Repository.{item_by_id, category_by_id}
use restaurant_pos.Menu.Price.{assert_valid_price}
use restaurant_pos.Menu.Admin.{admin_delete_category}
use restaurant_pos.Menu.Deleted.{Keyed}
use restaurant_pos.Menu.Operations.{
  Operation, run_all, create, delete, set_availability, delete_category,
}
use restaurant_pos.Menu.Unique.{Unique}
use restaurant_pos.Menu.Runs.{run_all-Unique}
use restaurant_pos.Orders.Types.{
  kitchen, bar, Order, OrderStatus, in_preparation, delivered, is_delivered, dine_in,
}
use restaurant_pos.Orders.Build.{OrderMenuItemInput, build_order_item_from_menu}
use restaurant_pos.Orders.Create.{CreateOrderInput}
use restaurant_pos.Orders.Edit.{EditInput, edit_order_before_payment}
use restaurant_pos.Orders.Edited.{deleted_category_unorderable, edit_order_guarded}
use restaurant_pos.Orders.Spared.{prepared, holds}
use restaurant_pos.Orders.Transition.{transition_order, front_of_house, role_status_flow}
use restaurant_pos.Orders.Priced.{Priced}
use restaurant_pos.Orders.Delivered.{finished, delivered_in_three}
use restaurant_pos.Orders.Prices.{AllPriced}
use restaurant_pos.Orders.Prices.Runs.{OrderOperation, after_operations, after_operations-AllPriced}
use restaurant_pos.Tests.Data.{
  store, order, ordered_soup, waiter, head_waiter, value_of, settings_in_force,
}

abbrev by_hand : Context
by_hand = record { source = local_pos; actor = some 5; event = none }

abbrev soups : Category
soups = record {
  id = 1;
  branch = 1;
  name = 83 ∷ [];
  sort_order = pos 1;
  is_active = true;
  created_at = 10;
  updated_at = 10;
  updated_source = local_pos;
  updated_by = none;
  event = none;
  deleted_at = none;
}

abbrev leek : MenuItem
leek = record {
  id = 2;
  branch = 1;
  category = 1;
  name = 76 ∷ [];
  description = none;
  price = 1250;
  prep_station = none;
  tax_mode = taxed;
  tax_rate = 0;
  inventory_item = none;
  is_available = true;
  is_active = true;
  is_promotional = false;
  created_at = 10;
  updated_at = 10;
  updated_source = local_pos;
  updated_by = none;
  event = none;
  deleted_at = none;
}

abbrev menu : Menu
menu = record { categories = (1, soups) ∷ []; items = (2, leek) ∷ [] }

abbrev as_is : Text → Text
as_is t = t

abbrev no_text : ℕ → Text
no_text n = []

-- Another soup at 9.00
abbrev onion : ItemInput
onion = record {
  branch = some 1;
  category = 1;
  name = 79 ∷ [];
  description = none;
  price = pos 9000;
  prep_station = none;
  tax_mode = none;
  tax_rate = none;
  inventory_item = none;
  inventory_unit = none;
  inventory_minimum_threshold = none;
  inventory_current_stock = none;
  is_available = none;
  is_active = none;
  is_promotional = none;
}

abbrev a_day : List Operation
a_day =
    create onion (79 ∷ []) 3 30 31 20
    ∷ create onion (79 ∷ []) 4 40 41 21
    ∷ set_availability 3 false 22
    ∷ delete 2 23
    ∷ delete_category 1 24
    ∷ []

leek_alone : (k : ℕ) (i : MenuItem) → Among k i menu.items → (k ≡ 2) × (i ≡ leek)
leek_alone k i here = (refl, refl)
leek_alone k i (there a) = elim a [ ]

menu-Unique : Unique as_is menu
menu-Unique = record {
  keyed = λ k i a. let (at, same) = leek_alone k i a in ground arith;
  one = λ j k x y a b l m c n. (leek_alone j x a).0 ∙ sym (leek_alone k y b).0;
}

run_all-Unique_example :
    Unique as_is (run_all as_is settings_in_force by_hand a_day (store, menu)).1
unfolding restaurant_pos.Menu.Operations.names_its_item
run_all-Unique_example =
    run_all-Unique as_is settings_in_force by_hand a_day store menu refl menu-Unique

menu-Keyed : Keyed menu
menu-Keyed = record { items = λ k i e. ground arith; categories = λ k c e. ground arith }

abbrev one_leek : OrderMenuItemInput
one_leek = record {
  new_id = 33;
  menu_item = 2;
  quantity = pos 1000;
  note = none;
  modifiers = none;
  allow_unavailable_override = true;
  override_reason = some (82 ∷ []);
}

deleted_category_unorderable_example :
    build_order_item_from_menu no_text head_waiter 1
      (admin_delete_category by_hand 1 60 menu).1
      one_leek
    ≢ ok ordered_soup
unfolding category_by_id item_by_id
deleted_category_unorderable_example =
    deleted_category_unorderable by_hand 60 1 menu soups no_text head_waiter 1 one_leek leek
      ordered_soup menu-Keyed refl refl refl

-- One portion more, and the first item becomes three.
abbrev second_round : EditInput
second_round = record {
  expected = 1;
  add_items = one_leek ∷ [];
  modify_items =
      record { item = 31; quantity = some (pos 3000); note = none; modifiers = none } ∷ [];
  remove_items = [];
  reason = none;
  approver = none;
}

abbrev edited : Result Order × Store
edited = edit_order_before_payment no_text menu waiter 3 second_round 60 store

edit_order_guarded_example :
    (x : Order) × (get store.orders 3 ≡ some x)
    × (x.version ≡ 1)
    × ((value_of edited.0 order).version ≡ 2)
    × (is_delivered x.status ≡ false)
    × (get edited.1.orders 3 ≡ some (value_of edited.0 order))
    × All
        (λ i. prepared (board_of store) x i ≡ true → holds i (value_of edited.0 order).items ≡ true)
        x.items
    × All
        (λ j. some_of (λ k. k == j.id) second_round.remove_items ≡ false)
        (value_of edited.0 order).items
    × ((at : ℕ) (b : Bill)
        → x.session ≡ some at
        → get store.bills at ≡ some b
        → is_editable b ≡ true)
unfolding edit_order_before_payment can restaurant_pos.Auth.Policy.grants is_editable
    restaurant_pos.Billing.Update.update_bill
    restaurant_pos.Billing.Splits.Defs.apply_bill_level_pricing
    restaurant_pos.Billing.Splits.Defs.charges_on restaurant_pos.Billing.Pricing.apply_promotions
    restaurant_pos.Billing.Editing.Items.new_bill
    restaurant_pos.Billing.Pricing.compute_promotion_discount restaurant_pos.Billing.Update.state_of
    restaurant_pos.Billing.Splits.Defs.price_split restaurant_pos.Billing.Lines.calculate_line_item
    restaurant_pos.Money.round2 restaurant_pos.Money.Allocate.allocate_amount
    restaurant_pos.Money.service_of
edit_order_guarded_example =
    edit_order_guarded no_text menu waiter 3 second_round 60 store (value_of edited.0 order) refl

abbrev one_more : CreateOrderInput
one_more = record {
  branch = none;
  service_mode = dine_in;
  table = none;
  session = some 7;
  takeout_name = none;
  items = one_leek ∷ [];
}

abbrev an_evening : List OrderOperation
an_evening =
    OrderOperation.create menu waiter one_more 1 4 55
    ∷ OrderOperation.edit menu waiter 3 second_round 60
    ∷ OrderOperation.transition true waiter 4 1 in_preparation 70
    ∷ OrderOperation.void_item head_waiter 3 31 2 (82 ∷ []) 80
    ∷ OrderOperation.cancel waiter 4 2 (82 ∷ []) none 90
    ∷ []

store-AllPriced : AllPriced store
unfolding restaurant_pos.Orders.Prices.OrdersPriced Priced restaurant_pos.Orders.Priced.LinePriced
    restaurant_pos.Money.gross_of
store-AllPriced = λ id o e. elim (Bool-cases (3 == id)) [
  | inl t ↦ let same : order ≡ o = ground arith in subst Priced same ((refl, tt), refl)
  | inr f ↦ absurd (ground arith)
]

after_operations-AllPriced_example : AllPriced (after_operations no_text an_evening store)
after_operations-AllPriced_example =
    after_operations-AllPriced no_text an_evening store store-AllPriced

waiter_serves :
    (x y : OrderStatus)
    → front_of_house x y ≡ true
    → some_of (λ r. role_status_flow r x y) waiter.roles ≡ true
unfolding role_status_flow
waiter_serves x y e = ground arith

abbrev by_hand_only : Store
by_hand_only = record store { stock = record store.stock { trigger_policy = manual } }

delivered_in_three_example :
    (y : Order) × ((transition_order true waiter 3 3 delivered 70
        (finished true waiter 3 by_hand_only 1 70)).0
      ≡ ok y)
    × (y.status ≡ delivered)
    × (y.version ≡ 4)
unfolding can restaurant_pos.Auth.Policy.grants
delivered_in_three_example =
    delivered_in_three true waiter 3 by_hand_only order 70 refl waiter_serves refl refl refl refl

-- 1.10 is refused: its product by 100 is not an integer in doubles.
one_ten_refused : assert_valid_price (pos 1100) ≡ err price_places
unfolding assert_valid_price
one_ten_refused = refl

one_twenty_five_accepted : assert_valid_price (pos 1250) ≡ ok 125
unfolding assert_valid_price
one_twenty_five_accepted = refl

-- Two tickets, one at the bar
abbrev cooking : ItemState
cooking = record {
  branch = 1;
  order = 3;
  item = 31;
  order_created_at = 50;
  prep_station = kitchen;
  quantity = 2000;
  progress = queued;
  updated_at = 90;
}

abbrev busy : Board
busy = record {
  items = cooking ∷ record cooking { item = 32; prep_station = bar } ∷ [];
  history = [];
}

get_kds_snapshot_groups_example :
    All OfStation (get_kds_snapshot settings_in_force none active_view (some 1) 5000 busy)
    × All
        (λ x.
          some_of (shows x) (get_kds_snapshot settings_in_force none active_view (some 1) 5000 busy)
          ≡ true)
        (shown_states none active_view (some 1) busy)
    × (tally (get_kds_snapshot settings_in_force none active_view (some 1) 5000 busy)
        ≡ length (shown_states none active_view (some 1) busy))
get_kds_snapshot_groups_example =
    get_kds_snapshot_groups settings_in_force active_view (some 1) 5000 busy
