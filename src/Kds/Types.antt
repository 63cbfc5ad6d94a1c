-- ===== src/Kds/Types.antt =====
-- The data of backend/kds/repository.ts.
use restaurant_pos.Base.{ℕ, Bool, true, false}
use restaurant_pos.Orders.Types.{Station}

pub data Progress : Type 0 where
  queued preparing ready served : Progress

pub data HistoryEvent : Type 0 where
  reached : Progress → HistoryEvent
  cancelled : HistoryEvent

-- `KdsItemState`
pub record ItemState : Type 0 where
  pub branch : ℕ
  pub order : ℕ
  pub item : ℕ
  pub order_created_at : ℕ
  pub prep_station : Station
  pub quantity : ℕ
  pub progress : Progress
  pub updated_at : ℕ

-- `KdsProgressHistoryRecord`
pub record HistoryRow : Type 0 where
  pub branch : ℕ
  pub order : ℕ
  pub item : ℕ
  pub prep_station : Station
  pub event : HistoryEvent
  pub at : ℕ

abbrev pub is_prepared : Progress → Bool
is_prepared ready = true
is_prepared served = true
is_prepared _ = false

abbrev pub is_cancellation : HistoryEvent → Bool
is_cancellation cancelled = true
is_cancellation (reached _) = false
