-- ===== src/Orders/Types.antt =====
-- The data of backend/orders/repository.ts, without what is only stored for reports.
use restaurant_pos.Base.{ℕ, Bool, true, false, Option, List}
use restaurant_pos.Base.Text.{Text}

pub data ServiceMode : Type 0 where
  dine_in takeout : ServiceMode

pub data OrderStatus : Type 0 where
  pending in_preparation completed delivered cancelled : OrderStatus

-- A prep station: the two that the code names, and any other configured one.
pub data Station : Type 0 where
  kitchen bar : Station
  station : ℕ → Station

-- `OrderItem`; `label` is the text `${menuItemId} ${name}`, which the classifier reads.
pub record OrderItem : Type 0 where
  pub id : ℕ
  pub menu_item : ℕ
  pub label : Text
  pub prep_station : Option Station
  pub quantity : ℕ
  pub unit_price : ℕ
  pub note : Option Text
  pub modifiers : Option (List Text)
  pub inventory_item : Option ℕ
  pub line_total : ℕ

-- The action of an `OrderChangeEntry` with what its details name.
pub data Change : Type 0 where
  item_added item_modified item_removed : ℕ → Change
  status_transition : OrderStatus → OrderStatus → Change
  order_cancelled : OrderStatus → Change
  table_transferred : ℕ → ℕ → Change

pub record ChangeEntry : Type 0 where
  pub at : ℕ
  pub actor : ℕ
  pub approver : Option ℕ
  pub change : Change
  pub reason : Option Text

pub record Order : Type 0 where
  pub id : ℕ
  pub branch : ℕ
  pub service_mode : ServiceMode
  pub table : Option ℕ
  pub session : Option ℕ
  pub status : OrderStatus
  pub items : List OrderItem
  pub subtotal : ℕ
  pub version : ℕ
  pub created_by : ℕ
  pub created_at : ℕ
  pub updated_at : ℕ
  pub change_log : List ChangeEntry

abbrev pub is_pending : OrderStatus → Bool
is_pending pending = true
is_pending _ = false

abbrev pub is_in_preparation : OrderStatus → Bool
is_in_preparation in_preparation = true
is_in_preparation _ = false

abbrev pub is_completed : OrderStatus → Bool
is_completed completed = true
is_completed _ = false

abbrev pub is_delivered : OrderStatus → Bool
is_delivered delivered = true
is_delivered _ = false

abbrev pub is_cancelled : OrderStatus → Bool
is_cancelled cancelled = true
is_cancelled _ = false
