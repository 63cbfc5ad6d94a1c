-- ===== src/Tests/Data.antt =====
-- A small restaurant: two guests at one table, their items, their bill and its payments.
use restaurant_pos.Base.{true, false, none, some, [], ◌∷◌}
use restaurant_pos.Base.Int.{pos}
use restaurant_pos.Base.Result.{Result, ok, err}
use restaurant_pos.Auth.Policy.{User, manager, waitstaff, active}
use restaurant_pos.Billing.Types.{TableOrderItem, Pricing, Promotion, fixed_amount, taxable, Bill}
use restaurant_pos.Billing.Pricing.{ChargeSettings}
use restaurant_pos.Billing.Update.{update_bill}
use restaurant_pos.Billing.Editing.Items.{ItemsBySplit, new_bill}
use restaurant_pos.Orders.Types.{Order, OrderItem, dine_in, pending}
use restaurant_pos.Tables.Types.{DiningTable, TableSession, TableStatus, opened}
use restaurant_pos.Inventory.Types.{Stock, on_in_preparation, Movement, MovementId, restock}
use restaurant_pos.Store.{Store}
use restaurant_pos.Settings.Types.{Settings, Printer, simulator}
use restaurant_pos.Settings.Normalize.{receipt}

abbrev pub value_of {ℓ} : {A : Type ℓ} → Result A → A → A
value_of (ok a) d = a
value_of (err e) d = d

-- Two portions at 12.50 with 1.00 off, for the session 7.
abbrev pub soup : TableOrderItem
soup = record {
  id = 31;
  session = 7;
  quantity = 2000;
  unit_price = 1250;
  item_discount = some (pos 1000);
  combo_discount = none;
  happy_hour_discount = none;
  line_discount = none;
  line_tax = none;
}

abbrev pub tea : TableOrderItem
tea = record soup { id = 32; quantity = 1000; unit_price = 333; item_discount = none }

abbrev pub items : ItemsBySplit
items = record { items_a = soup ∷ []; items_b = tea ∷ []; items_c = [] }

-- Five off, ten percent tax and five percent service.
abbrev pub five_off : Promotion
five_off = record { id = 1; kind = fixed_amount; value = pos 500; max_discount = none }

abbrev pub pricing : Pricing
pricing = record {
  tax_mode = taxable;
  tax_rate = 1000;
  promotions = five_off ∷ [];
  service_rate = 5000;
  service_enabled = true;
}

abbrev pub settings : ChargeSettings
settings = record { tax_enabled = true; tax_rate = pos 10000; service_rate = pos 5000 }

abbrev pub fresh_bill : Bill
fresh_bill = new_bill pricing items 4 1 7 100

abbrev pub priced_bill : Bill
priced_bill = value_of (update_bill 100 fresh_bill) fresh_bill

abbrev pub head_waiter : User
head_waiter = record { id = 5; branch = some 1; roles = manager ∷ []; status = active }

abbrev pub waiter : User
waiter = record head_waiter { id = 6; roles = waitstaff ∷ [] }

abbrev pub ordered_soup : OrderItem
ordered_soup = record {
  id = 31;
  menu_item = 2;
  label = [];
  prep_station = none;
  quantity = 2000;
  unit_price = 1250;
  note = none;
  modifiers = none;
  inventory_item = some 9;
  line_total = 2500;
}

abbrev pub order : Order
order = record {
  id = 3;
  branch = 1;
  service_mode = dine_in;
  table = some 2;
  session = some 7;
  status = pending;
  items = ordered_soup ∷ [];
  subtotal = 2500;
  version = 1;
  created_by = 6;
  created_at = 50;
  updated_at = 50;
  change_log = [];
}

abbrev pub table : DiningTable
table = record {
  id = 2;
  branch = 1;
  name = 84 ∷ [];
  capacity = 4;
  status = TableStatus.active;
  layout_x = none;
  layout_y = none;
}

abbrev pub session : TableSession
session = record {
  id = 7;
  branch = 1;
  table = 2;
  guest_count = 2;
  status = opened;
  opened_by = 6;
  opened_at = 40;
  closed_by = none;
  closed_at = none;
  transferred_to = none;
  updated_at = 40;
}

-- Ten units of the inventory item 9.
abbrev pub delivery : Movement
delivery = record {
  id = MovementId.fresh 1;
  item = 9;
  kind = restock;
  delta = pos 10_000_000;
  reference = none;
  receiving = some 1;
  unit_cost = none;
  total_cost = none;
  actor = some 5;
  created_at = 10;
}

abbrev pub stock : Stock
stock = record {
  items =
      (record {
        id = 9;
        branch = 1;
        sku = 82 ∷ [];
        name = 82 ∷ [];
        unit = 103 ∷ [];
        minimum_threshold = 0;
        unit_cost = none;
      })
      ∷ [];
  movements = delivery ∷ [];
  recipes = [];
  deductions = [];
  trigger_policy = on_in_preparation;
  allow_negative = false;
}

abbrev pub store : Store
store = record {
  bills = (7, priced_bill) ∷ [];
  debts = [];
  billing_audit = [];
  audit = [];
  orders = (3, order) ∷ [];
  tables = (2, table) ∷ [];
  sessions = (7, session) ∷ [];
  kds_items = [];
  kds_history = [];
  stock = stock;
}

abbrev pub no_printer : Printer
no_printer = record {
  enabled = true;
  printer_id = 80 ∷ [];
  display_name = 80 ∷ [];
  connection_type = simulator;
  windows_printer_name = none;
  network_address = none;
  network_port = 9100;
  copies = 1;
  auto_print = false;
}

abbrev pub settings_in_force : Settings
settings_in_force = record {
  menu_inventory_link_enabled = false;
  bill_info = record {
    restaurant_name = 82 ∷ [];
    address = [];
    contact = [];
    tax_id = none;
    receipt_footer = none;
  };
  tax = record { enabled = true; rate = 1000 };
  service_charge_rate = 500;
  prep_stations =
      record { id = 98 ∷ []; display_name = 66 ∷ []; enabled = true; sort_order = pos 10 } ∷ [];
  printers = (receipt, no_printer) ∷ (98 ∷ [], no_printer) ∷ [];
  printer_assignments = (receipt, receipt) ∷ (98 ∷ [], 98 ∷ []) ∷ [];
}
