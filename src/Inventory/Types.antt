-- ===== src/Inventory/Types.antt =====
-- The data of backend/inventory/repository.ts and the policies of its service. A movement is in
-- millionths of a unit (the product of an ordered quantity and a recipe's quantity, both in
-- thousandths, is not rounded), a balance in thousandths.
use restaurant_pos.Base.{ℕ, Bool, true, false, Option, List}
use restaurant_pos.Base.Int.{ℤ}
use restaurant_pos.Base.Text.{Text}

pub data Trigger : Type 0 where
  on_in_preparation on_completed manual : Trigger

pub data MovementType : Type 0 where
  sale_deduction manual_adjustment wastage restock : MovementType

-- A movement is stored under its idempotency key, or under a fresh id.
pub data MovementId : Type 0 where
  keyed : ℕ → ℕ → Trigger → ℕ → MovementId
  fresh : ℕ → MovementId

pub record InventoryItem : Type 0 where
  pub id : ℕ
  pub branch : ℕ
  pub sku : Text
  pub name : Text
  pub unit : Text
  pub minimum_threshold : ℕ
  pub unit_cost : Option ℕ

pub record Movement : Type 0 where
  pub id : MovementId
  pub item : ℕ
  pub kind : MovementType
  pub delta : ℤ
  pub reference : Option ℕ
  pub receiving : Option ℕ
  pub unit_cost : Option ℕ
  pub total_cost : Option ℕ
  pub actor : Option ℕ
  pub created_at : ℕ

pub record Recipe : Type 0 where
  pub menu_item : ℕ
  pub inventory_item : ℕ
  pub per_unit : ℕ

pub record Deduction : Type 0 where
  pub order : ℕ
  pub order_item : ℕ
  pub trigger : Trigger

pub record Stock : Type 0 where
  pub items : List InventoryItem
  pub movements : List Movement
  pub recipes : List Recipe
  pub deductions : List Deduction
  pub trigger_policy : Trigger
  pub allow_negative : Bool

abbrev pub trigger_number : Trigger → ℕ
trigger_number on_in_preparation = 0
trigger_number on_completed = 1
trigger_number manual = 2

abbrev pub is_restock : MovementType → Bool
is_restock restock = true
is_restock _ = false
