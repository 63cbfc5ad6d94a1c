-- ===== src/Settings/Whole.antt =====
-- Settings that are handed to `updatePosOperationalSettings` of backend/config/posSettings.ts whole.
use restaurant_pos.Base.{◌*◌, none, some, map}
use restaurant_pos.Base.Text.{Text}
use restaurant_pos.Base.Int.{pos}
use restaurant_pos.Settings.Types.{
  Settings, SettingsInput, Printer, PrinterInput, NumberInput, PrepStation, PrepStationInput,
}

abbrev pub station_input : PrepStation → PrepStationInput
station_input x = record {
  id = some x.id;
  name = none;
  display_name = some x.display_name;
  enabled = some x.enabled;
  sort_order = some x.sort_order;
}

abbrev pub printer_input : Printer → PrinterInput
printer_input x = record {
  enabled = some x.enabled;
  printer_id = some x.printer_id;
  display_name = some x.display_name;
  connection_type = some x.connection_type;
  windows_printer_name = x.windows_printer_name;
  network_address = x.network_address;
  network_port = NumberInput.integer (pos x.network_port);
  copies = NumberInput.integer (pos x.copies);
  auto_print = some x.auto_print;
}

-- A rate of the input is in ten-thousandths.
abbrev pub settings_input : Settings → SettingsInput
settings_input s = record {
  menu_inventory_link_enabled = some s.menu_inventory_link_enabled;
  bill_info = record {
    restaurant_name = some s.bill_info.restaurant_name;
    address = some s.bill_info.address;
    contact = some s.bill_info.contact;
    tax_id = s.bill_info.tax_id;
    receipt_footer = s.bill_info.receipt_footer;
  };
  tax_enabled = some s.tax.enabled;
  tax_rate = some (pos (s.tax.rate * 100));
  service_charge_rate = some (pos (s.service_charge_rate * 100));
  prep_stations = some (map station_input s.prep_stations);
  printers = map (λ (p : Text × Printer). (p.0, printer_input p.1)) s.printers;
  printer_assignments = s.printer_assignments;
}
