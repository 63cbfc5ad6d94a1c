-- ===== src/Tables/Types.antt =====
-- The data of backend/tables/repository.ts.
use restaurant_pos.Base.{ℕ, Bool, true, false, Option}
use restaurant_pos.Base.Text.{Text}

pub data TableStatus : Type 0 where
  active inactive : TableStatus

-- `opened` is the status that the source calls `open`.
pub data SessionStatus : Type 0 where
  opened closed : SessionStatus

pub record DiningTable : Type 0 where
  pub id : ℕ
  pub branch : ℕ
  pub name : Text
  pub capacity : ℕ
  pub status : TableStatus
  pub layout_x : Option ℕ
  pub layout_y : Option ℕ

pub record TableSession : Type 0 where
  pub id : ℕ
  pub branch : ℕ
  pub table : ℕ
  pub guest_count : ℕ
  pub status : SessionStatus
  pub opened_by : ℕ
  pub opened_at : ℕ
  pub closed_by : Option ℕ
  pub closed_at : Option ℕ
  pub transferred_to : Option ℕ
  pub updated_at : ℕ

abbrev pub is_active_table : TableStatus → Bool
is_active_table active = true
is_active_table inactive = false

abbrev pub is_open : SessionStatus → Bool
is_open opened = true
is_open closed = false
