-- ===== src/Tables/Floor.antt =====
-- `createTable`, `updateTable` and `listTableFloor` of backend/tables/service.ts.
use restaurant_pos.Base.{
  ℕ, ◌+◌, ◌/◌, Option, none, some, List, [], ◌∷◌, ◌==◌, leb, if◌then◌else◌, find, select, ◌&&◌,
}
use restaurant_pos.Base.Int.{ℤ, pos, negsuc}
use restaurant_pos.Base.Text.{Text, trim, is_blank_text}
use restaurant_pos.Base.Table.{get, put, values}
use restaurant_pos.Base.Result.{
  Result, ok, err, and_then, check, or_error, name_required, bad_capacity, bad_layout,
  table_not_found,
}
use restaurant_pos.Store.{Store, M, pure, lift, modify, ◌>>=◌, ◌>>◌}
use restaurant_pos.Settings.Types.{NumberInput, absent, not_integer, integer}
use restaurant_pos.Settings.Normalize.{given}
use restaurant_pos.Tables.Types.{
  DiningTable, TableSession, TableStatus, active, is_active_table, is_open,
}

-- `UpsertTableInput` and `UpdateTableInput`; a coordinate is in hundredths.
pub record TableInput : Type 0 where
  pub id : Option ℕ
  pub branch : Option ℕ
  pub name : Text
  pub capacity : NumberInput
  pub status : Option TableStatus
  pub layout_x : Option ℤ
  pub layout_y : Option ℤ

pub record TablePatch : Type 0 where
  pub name : Option Text
  pub capacity : NumberInput
  pub status : Option TableStatus
  pub layout_x : Option ℤ
  pub layout_y : Option ℤ

unfoldable pub normalize_capacity : NumberInput → Result ℕ
normalize_capacity absent = err bad_capacity
normalize_capacity not_integer = err bad_capacity
normalize_capacity (integer (negsuc n)) = err bad_capacity
normalize_capacity (integer (pos n)) = and_then (check (leb 1 n) bad_capacity) λ _. ok n

unfoldable pub normalize_layout_coordinate : Option ℤ → Result (Option ℕ)
normalize_layout_coordinate none = ok none
normalize_layout_coordinate (some (negsuc n)) = err bad_layout
normalize_layout_coordinate (some (pos n)) =
    and_then (check (leb n 10_000) bad_layout) λ _. ok (some ((n + 50) / 100))

abbrev table_name : Text → Result Text
table_name t = if is_blank_text (trim t) then err name_required else ok (trim t)

unfoldable pub save_table : DiningTable → M DiningTable
save_table t = do modify (λ s. record s { tables = put s.tables t.id t }); pure t

unfoldable pub create_table : TableInput → ℕ → ℕ → M DiningTable
unfolding trim normalize_capacity normalize_layout_coordinate save_table
create_table input fresh current_branch = do
  name ← lift (table_name input.name)
  capacity ← lift (normalize_capacity input.capacity)
  x ← lift (normalize_layout_coordinate input.layout_x)
  y ← lift (normalize_layout_coordinate input.layout_y)
  save_table (record {
    id = given input.id fresh;
    branch = given input.branch current_branch;
    name = name;
    capacity = capacity;
    status = given input.status active;
    layout_x = x;
    layout_y = y;
  })

abbrev name_or : Option Text → Text → Result Text
name_or none old = ok old
name_or (some t) old = table_name t

abbrev capacity_or : NumberInput → ℕ → Result ℕ
capacity_or absent old = ok old
capacity_or not_integer old = normalize_capacity not_integer
capacity_or (integer z) old = normalize_capacity (integer z)

abbrev layout_or : Option ℤ → Option ℕ → Result (Option ℕ)
layout_or none old = ok old
layout_or (some z) old = normalize_layout_coordinate (some z)

unfoldable pub update_table : ℕ → TablePatch → M DiningTable
unfolding trim normalize_capacity normalize_layout_coordinate save_table
update_table id input = do
  t ← (λ s. lift (or_error (get s.tables id) table_not_found) s)
  name ← lift (name_or input.name t.name)
  capacity ← lift (capacity_or input.capacity t.capacity)
  x ← lift (layout_or input.layout_x t.layout_x)
  y ← lift (layout_or input.layout_y t.layout_y)
  save_table (record t {
    name = name;
    capacity = capacity;
    status = given input.status t.status;
    layout_x = x;
    layout_y = y;
  })

pub data FloorStatus : Type 0 where
  available occupied out_of_use : FloorStatus

-- `TableFloorState`
pub record FloorState : Type 0 where
  pub table : DiningTable
  pub active_session : Option TableSession
  pub status : FloorStatus

abbrev floor_status : TableStatus → Option TableSession → FloorStatus
floor_status t none = if is_active_table t then available else out_of_use
floor_status t (some x) = if is_active_table t then occupied else out_of_use

unfoldable pub floor_of : List TableSession → List DiningTable → List FloorState
floor_of open_ones [] = []
floor_of open_ones (t ∷ ts) =
    let session = find (λ x. x.table == t.id) open_ones in
    record { table = t; active_session = session; status = floor_status t.status session }
    ∷ floor_of open_ones ts

-- The tables in the order of the map; the caller has them by name.
unfoldable pub list_table_floor : Store → ℕ → List FloorState
unfolding floor_of
list_table_floor s branch =
    floor_of (select (λ x. x.branch == branch && is_open x.status) (values s.sessions))
      (select (λ t. t.branch == branch) (values s.tables))
