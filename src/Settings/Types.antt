-- ===== src/Settings/Types.antt =====
-- The data of backend/config/posSettings.ts, and the inputs that `updatePosOperationalSettings`
-- takes; a key that an input leaves out is `none`. The localization texts are not modelled.
use restaurant_pos.Base.{ℕ, Bool, Option, List}
use restaurant_pos.Base.Int.{ℤ}
use restaurant_pos.Base.Text.{Text}

pub record BillInfo : Type 0 where
  pub restaurant_name : Text
  pub address : Text
  pub contact : Text
  pub tax_id : Option Text
  pub receipt_footer : Option Text

pub record BillInfoInput : Type 0 where
  pub restaurant_name : Option Text
  pub address : Option Text
  pub contact : Option Text
  pub tax_id : Option Text
  pub receipt_footer : Option Text

pub data ConnectionType : Type 0 where
  simulator network windows : ConnectionType

pub record Printer : Type 0 where
  pub enabled : Bool
  pub printer_id : Text
  pub display_name : Text
  pub connection_type : ConnectionType
  pub windows_printer_name : Option Text
  pub network_address : Option Text
  pub network_port : ℕ
  pub copies : ℕ
  pub auto_print : Bool

-- `none` for a port or a number of copies is a value that `Number.isInteger` refuses.
pub data NumberInput : Type 0 where
  absent not_integer : NumberInput
  integer : ℤ → NumberInput

pub record PrinterInput : Type 0 where
  pub enabled : Option Bool
  pub printer_id : Option Text
  pub display_name : Option Text
  pub connection_type : Option ConnectionType
  pub windows_printer_name : Option Text
  pub network_address : Option Text
  pub network_port : NumberInput
  pub copies : NumberInput
  pub auto_print : Option Bool

pub record PrepStation : Type 0 where
  pub id : Text
  pub display_name : Text
  pub enabled : Bool
  pub sort_order : ℤ

-- `raw.id`, `raw.name` and `raw.displayName`
pub record PrepStationInput : Type 0 where
  pub id : Option Text
  pub name : Option Text
  pub display_name : Option Text
  pub enabled : Option Bool
  pub sort_order : Option ℤ

-- An object with text keys, in insertion order
abbrev pub Dict : Type 0 → Type 0
Dict V = List (Text × V)

-- Rates are in hundredths.
pub record Tax : Type 0 where
  pub enabled : Bool
  pub rate : ℕ

pub record Settings : Type 0 where
  pub menu_inventory_link_enabled : Bool
  pub bill_info : BillInfo
  pub tax : Tax
  pub service_charge_rate : ℕ
  pub prep_stations : List PrepStation
  pub printers : Dict Printer
  pub printer_assignments : Dict Text

-- An input's rate is in ten-thousandths, before it is rounded to hundredths.
pub record SettingsInput : Type 0 where
  pub menu_inventory_link_enabled : Option Bool
  pub bill_info : BillInfoInput
  pub tax_enabled : Option Bool
  pub tax_rate : Option ℤ
  pub service_charge_rate : Option ℤ
  pub prep_stations : Option (List PrepStationInput)
  pub printers : Dict PrinterInput
  pub printer_assignments : Dict Text
