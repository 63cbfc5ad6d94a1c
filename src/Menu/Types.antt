-- ===== src/Menu/Types.antt =====
-- The data of backend/menu/repository.ts and the inputs of backend/menu/service.ts. A key that an
-- input leaves out is `none`.
use restaurant_pos.Base.{ℕ, Bool, Option}
use restaurant_pos.Base.Int.{ℤ}
use restaurant_pos.Base.Text.{Text}
use restaurant_pos.Base.Table.{Table}

pub data Source : Type 0 where
  local_pos cloud_manager : Source

pub data MenuTaxMode : Type 0 where
  taxed untaxed : MenuTaxMode

-- `MenuMutationContext`
pub record Context : Type 0 where
  pub source : Source
  pub actor : Option ℕ
  pub event : Option ℕ

pub record Category : Type 0 where
  pub id : ℕ
  pub branch : ℕ
  pub name : Text
  pub sort_order : ℤ
  pub is_active : Bool
  pub created_at : ℕ
  pub updated_at : ℕ
  pub updated_source : Source
  pub updated_by : Option ℕ
  pub event : Option ℕ
  pub deleted_at : Option ℕ

-- A price is in cents, a tax rate in hundredths.
pub record MenuItem : Type 0 where
  pub id : ℕ
  pub branch : ℕ
  pub category : ℕ
  pub name : Text
  pub description : Option Text
  pub price : ℕ
  pub prep_station : Option Text
  pub tax_mode : MenuTaxMode
  pub tax_rate : ℕ
  pub inventory_item : Option ℕ
  pub is_available : Bool
  pub is_active : Bool
  pub is_promotional : Bool
  pub created_at : ℕ
  pub updated_at : ℕ
  pub updated_source : Source
  pub updated_by : Option ℕ
  pub event : Option ℕ
  pub deleted_at : Option ℕ

pub record Menu : Type 0 where
  pub categories : Table Category
  pub items : Table MenuItem

pub record CategoryInput : Type 0 where
  pub branch : Option ℕ
  pub name : Text
  pub sort_order : Option ℤ
  pub is_active : Option Bool

pub record CategoryPatch : Type 0 where
  pub branch : Option ℕ
  pub name : Option Text
  pub sort_order : Option ℤ
  pub is_active : Option Bool

-- Prices and rates are numbers of tenths of a cent, quantities of stock thousandths.
pub record ItemInput : Type 0 where
  pub branch : Option ℕ
  pub category : ℕ
  pub name : Text
  pub description : Option Text
  pub price : ℤ
  pub prep_station : Option Text
  pub tax_mode : Option MenuTaxMode
  pub tax_rate : Option ℤ
  pub inventory_item : Option ℕ
  pub inventory_unit : Option Text
  pub inventory_minimum_threshold : Option ℤ
  pub inventory_current_stock : Option ℤ
  pub is_available : Option Bool
  pub is_active : Option Bool
  pub is_promotional : Option Bool

pub record ItemPatch : Type 0 where
  pub branch : Option ℕ
  pub category : Option ℕ
  pub name : Option Text
  pub description : Option Text
  pub price : Option ℤ
  pub prep_station : Option Text
  pub tax_mode : Option MenuTaxMode
  pub tax_rate : Option ℤ
  pub inventory_item : Option ℕ
  pub inventory_unit : Option Text
  pub inventory_minimum_threshold : Option ℤ
  pub inventory_current_stock : Option ℤ
  pub is_available : Option Bool
  pub is_active : Option Bool
  pub is_promotional : Option Bool
