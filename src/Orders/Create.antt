-- ===== src/Orders/Create.antt =====
-- `createOrderDraftImpl` of backend/orders/service.ts.
use restaurant_pos.Base.{ℕ, Bool, false, not, Option, none, some, List, []}
use restaurant_pos.Base.Text.{Text, trim, is_blank_text}
use restaurant_pos.Base.Table.{put}
use restaurant_pos.Base.Result.{
  check, forbidden, session_required, takeout_name_required, other_branch,
}
use restaurant_pos.Store.{M, pure, lift, throw, modify, ◌>>=◌, ◌>>◌}
use restaurant_pos.Auth.Policy.{User, can, create_order}
use restaurant_pos.Tables.Types.{TableSession}
use restaurant_pos.Tables.Access.{require_open_session}
use restaurant_pos.Kds.Board.{sync_order_into_kds}
use restaurant_pos.Menu.Types.{Menu}
use restaurant_pos.Settings.Normalize.{given, first_of}
use restaurant_pos.Orders.Types.{Order, OrderItem, ServiceMode, dine_in, takeout, pending}
use restaurant_pos.Orders.Update.{branch_matches, recalc_subtotal}
use restaurant_pos.Orders.Build.{OrderMenuItemInput, build_order_items_from_menu}

-- `CreateOrderInput`
pub record CreateOrderInput : Type 0 where
  pub branch : Option ℕ
  pub service_mode : ServiceMode
  pub table : Option ℕ
  pub session : Option ℕ
  pub takeout_name : Option Text
  pub items : List OrderMenuItemInput

abbrev names_guest : Option Text → Bool
names_guest none = false
names_guest (some t) = not (is_blank_text (trim t))

-- The open session of a dine-in order; a takeout order has none.
unfoldable pub session_of : CreateOrderInput → M (Option TableSession)
unfolding require_open_session trim
session_of input = elim input.service_mode [
  | takeout ↦ do lift (check (names_guest input.takeout_name) takeout_name_required); pure none
  | dine_in ↦ elim input.session [
    | none ↦ throw session_required
    | some id ↦ do session ← require_open_session id; pure (some session)
  ]
]

abbrev pub branch_of : Option TableSession → Option ℕ
branch_of none = none
branch_of (some x) = some x.branch

abbrev table_of : Option TableSession → Option ℕ
table_of none = none
table_of (some x) = some x.table

abbrev id_of : Option TableSession → Option ℕ
id_of none = none
id_of (some x) = some x.id

unfoldable pub new_order :
    User → CreateOrderInput → ℕ → Option TableSession → List OrderItem → ℕ → ℕ → Order
new_order user input branch session items id now = record {
  id = id;
  branch = branch;
  service_mode = input.service_mode;
  table = first_of (table_of session) input.table;
  session = id_of session;
  status = pending;
  items = items;
  subtotal = recalc_subtotal items;
  version = 1;
  created_by = user.id;
  created_at = now;
  updated_at = now;
  change_log = [];
}

-- Storing a new order and putting it on the board
unfoldable pub store_order : Order → ℕ → M Order
unfolding sync_order_into_kds
store_order o now = do
  modify (λ s. record s { orders = put s.orders o.id o })
  sync_order_into_kds o now
  pure o

module _ (text_of_id : ℕ → Text) where
  unfoldable pub create_order_draft : Menu → User → CreateOrderInput → ℕ → ℕ → ℕ → M Order
  unfolding session_of build_order_items_from_menu new_order store_order
  create_order_draft m user input current_branch id now = do
    lift (check (can user create_order) forbidden)
    session ← session_of input
    let branch =
        given (branch_of session) (given (first_of input.branch user.branch) current_branch)
    lift (check (branch_matches user branch) other_branch)
    items ← lift (build_order_items_from_menu text_of_id user branch m input.items)
    store_order (new_order user input branch session items id now) now
