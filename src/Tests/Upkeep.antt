-- ===== src/Tests/Upkeep.antt =====
-- Transfers, synchronized versions, settings, bulk imports and repeated requests at concrete inputs.
use restaurant_pos.Base.{
  All, Option, ℕ, ◌+◌, ◌≡◌, ◌≢◌, refl, ◌⊎◌, true, false, none, some, List, [], ◌∷◌, arith,
  if◌then◌else◌,
}
use restaurant_pos.Base.Int.{ℤ, pos}
use restaurant_pos.Base.Text.{Text}
use restaurant_pos.Base.Table.{Table, get}
use restaurant_pos.Base.Result.{Result, Error, ok, err, token_invalid, key_reused}
use restaurant_pos.Store.{Store}
use restaurant_pos.Auth.Policy.{User}
use restaurant_pos.Orders.Types.{Order}
use restaurant_pos.Tables.Types.{DiningTable, TableSession, is_open}
use restaurant_pos.Tables.Transfer.{transfer_table_session}
use restaurant_pos.Tables.Moved.{transfer_table_session_moves}
use restaurant_pos.Sync.Versions.{Version, from_pos, receive_all}
use restaurant_pos.Sync.Converge.{IsVersion, swap, receive_all-reordered}
use restaurant_pos.Settings.Types.{Settings, SettingsInput, NumberInput}
use restaurant_pos.Settings.Normalize.{Locale, lookup}
use restaurant_pos.Settings.Stations.{update_pos_operational_settings}
use restaurant_pos.Menu.Types.{local_pos}
use restaurant_pos.Menu.Bulk.Validator.{
  price_number, SourceRow, validate_bulk_upload_rows, ImportRow,
}
use restaurant_pos.Menu.Bulk.Categories.{TokenRecord, Imported}
use restaurant_pos.Menu.Bulk.Confirm.{confirm_bulk_import}
use restaurant_pos.Menu.Bulk.Named.{Named}
use restaurant_pos.Menu.Bulk.Names.{confirm_bulk_import-Named}
use restaurant_pos.Menu.Bulk.Laws.{
  Apart, Priced, validate_bulk_upload_rows-Apart, confirm_bulk_import_once,
}
use restaurant_pos.Http.Replay.{
  Method, method, Request, Fingerprint, Response, ReplayRecord, send, idempotency_matches,
}
use restaurant_pos.Http.Once.{send_once}
use restaurant_pos.Tests.Data.{
  store, table, session, waiter, head_waiter, value_of, settings_in_force, no_printer,
}

-- A second table that is free
abbrev two_tables : Store
two_tables = record store { tables = (2, table) ∷ (3, record table { id = 3 }) ∷ [] }

abbrev moving : Result TableSession × Store
moving = transfer_table_session waiter 7 3 false 8 9 60 two_tables

orders_keyed : (k : ℕ) (o : Order) → get two_tables.orders k ≡ some o → o.id ≡ k
orders_keyed k o e = ground arith

sessions_keyed : (k : ℕ) (z : TableSession) → get two_tables.sessions k ≡ some z → z.id ≡ k
sessions_keyed k z e = ground arith

tables_keyed : (k : ℕ) (z : DiningTable) → get two_tables.tables k ≡ some z → z.id ≡ k
tables_keyed k z e = ground arith

transfer_table_session_moves_example :
    ((k : ℕ) (o : Order) → get moving.1.orders k ≡ some o → o.session ≢ some 7)
    × ((x : TableSession) × (z : TableSession) × (get two_tables.sessions 7 ≡ some x)
        × (get moving.1.sessions 7 ≡ some z)
        × (is_open x.status ≡ true)
        × (is_open z.status ≡ false)
        × (z.transferred_to ≡ some (value_of moving.0 session).id)
        × (z.closed_by ≡ some waiter.id)
        × (z.closed_at ≡ some 60)
        × (z.table ≡ x.table))
    × (get moving.1.sessions (value_of moving.0 session).id ≡ some (value_of moving.0 session))
    × ((value_of moving.0 session).table ≡ 3)
    × (is_open (value_of moving.0 session).status ≡ true)
unfolding transfer_table_session restaurant_pos.Auth.Policy.can restaurant_pos.Auth.Policy.grants
    restaurant_pos.Billing.Update.is_editable restaurant_pos.Billing.Update.update_bill
    restaurant_pos.Billing.Splits.Defs.apply_bill_level_pricing
    restaurant_pos.Billing.Splits.Defs.charges_on restaurant_pos.Billing.Pricing.apply_promotions
    restaurant_pos.Billing.Editing.Items.new_bill
    restaurant_pos.Billing.Pricing.compute_promotion_discount restaurant_pos.Billing.Update.state_of
    restaurant_pos.Billing.Splits.Defs.price_split restaurant_pos.Billing.Lines.calculate_line_item
    restaurant_pos.Money.gross_of restaurant_pos.Money.round2
    restaurant_pos.Money.Allocate.allocate_amount restaurant_pos.Money.service_of
transfer_table_session_moves_example =
    transfer_table_session_moves waiter 7 3 false 8 9 60 two_tables (value_of moving.0 session)
      orders_keyed sessions_keyed tables_keyed (refl, tt) refl refl

-- Two versions of one instant, each told by its text
abbrev version_of : Text → Version
version_of t = record { at = some 10; source = from_pos; state = t }

receive_all-reordered_example :
    receive_all (version_of (65 ∷ []) ∷ version_of (66 ∷ []) ∷ []) none
    ≡ receive_all (version_of (66 ∷ []) ∷ version_of (65 ∷ []) ∷ []) none
unfolding IsVersion
receive_all-reordered_example =
    receive_all-reordered version_of (version_of (65 ∷ []) ∷ version_of (66 ∷ []) ∷ [])
      (version_of (66 ∷ []) ∷ version_of (65 ∷ []) ∷ []) none
      (swap (version_of (65 ∷ [])) (version_of (66 ∷ [])) []) ((refl, refl), ((refl, refl), tt)) tt

abbrev locale : Locale
locale = record {
  default_printer = λ id name. no_printer;
  receipt_printer = no_printer;
  name_before = λ a b. false;
}

-- A printer gets a port that there is not, and an operation a printer that there is not.
abbrev wrong_port : SettingsInput
wrong_port = record {
  menu_inventory_link_enabled = none;
  bill_info = record {
    restaurant_name = none;
    address = none;
    contact = none;
    tax_id = none;
    receipt_footer = none;
  };
  tax_enabled = none;
  tax_rate = none;
  service_charge_rate = some (pos 100_000);
  prep_stations = none;
  printers =
      (
        98 ∷ [],
        record {
          enabled = none;
          printer_id = none;
          display_name = none;
          connection_type = none;
          windows_printer_name = none;
          network_address = none;
          network_port = NumberInput.integer (pos 70_000);
          copies = NumberInput.integer (pos 0);
          auto_print = none;
        },
      )
      ∷ [];
  printer_assignments = (98 ∷ [], 99 ∷ []) ∷ [];
}

abbrev updated : Settings
updated =
    value_of (update_pos_operational_settings locale wrong_port settings_in_force) settings_in_force

-- The printer `toString` is taken for one.
abbrev to_string : Text
to_string = 116 ∷ 111 ∷ 83 ∷ 116 ∷ 114 ∷ 105 ∷ 110 ∷ 103 ∷ []

inherited_assigned :
    lookup
      (value_of
        (update_pos_operational_settings locale
          (record wrong_port { printer_assignments = (98 ∷ [], to_string) ∷ [] })
          settings_in_force)
        settings_in_force).printer_assignments
      (98 ∷ [])
    ≡ some to_string
unfolding lookup update_pos_operational_settings
inherited_assigned = refl

abbrev as_is : Text → Text
as_is t = t

abbrev no_number : Text → Option ℤ
no_number t = none

-- A sheet that says one row twice
abbrev sheet : List SourceRow
sheet =
    record {
      row_number = 2;
      name = 84 ∷ [];
      category = 68 ∷ [];
      station = 98 ∷ [];
      price = price_number (pos 3000);
    }
    ∷ record {
      row_number = 3;
      name = 32 ∷ 84 ∷ [];
      category = 68 ∷ [];
      station = 98 ∷ [];
      price = price_number (pos 3500);
    }
    ∷ []

validate_bulk_upload_rows-Apart_example :
    Apart as_is no_number (validate_bulk_upload_rows as_is no_number sheet).rows
    × All (Priced as_is no_number) (validate_bulk_upload_rows as_is no_number sheet).rows
validate_bulk_upload_rows-Apart_example = validate_bulk_upload_rows-Apart as_is no_number sheet

abbrev no_sku : ℕ → Text
no_sku n = []

abbrev tea_row : ImportRow
tea_row = record {
  row_number = 2;
  name = 84 ∷ [];
  category = 68 ∷ [];
  station = 98 ∷ [];
  price = 3000;
}

abbrev previewed : Table TokenRecord
previewed =
    (5, record { source = local_pos; user = 5; branch = 1; rows = tea_row ∷ []; expires_at = 900 })
    ∷ []

abbrev nothing_yet : Imported
nothing_yet = record {
  menu = record { categories = []; items = [] };
  settings = settings_in_force;
  next_id = 100;
}

abbrev confirmed : Result (Unit {0}) × Table TokenRecord × Imported × Store
confirmed =
    confirm_bulk_import as_is no_sku locale head_waiter 5 1 local_pos 500 previewed nothing_yet
      store

confirm_bulk_import_once_example :
    ((confirm_bulk_import as_is no_sku locale waiter 5 1 local_pos 600 confirmed.1 confirmed.2
        confirmed.3).0
      ≡ err token_invalid)
    × ((confirm_bulk_import as_is no_sku locale waiter 5 1 local_pos 600 confirmed.1 confirmed.2
          confirmed.3).2
        ≡ confirmed.2)
    × ((confirm_bulk_import as_is no_sku locale waiter 5 1 local_pos 600 confirmed.1 confirmed.2
          confirmed.3).3
        ≡ confirmed.3)
confirm_bulk_import_once_example =
    confirm_bulk_import_once as_is no_sku locale head_waiter waiter 5 1 1 500 600 local_pos
      local_pos previewed nothing_yet store (refl, tt)

Named-nothing_yet : Named as_is nothing_yet.menu
Named-nothing_yet = record {
  unique = record { keyed = λ k i a. elim a [ ]; one = λ j k x y a b. elim a [ ] };
  map = tt;
}

confirm_bulk_import-Named_example :
    ((e : Error) × (confirmed.0 ≡ err e) × (confirmed.2.menu ≡ nothing_yet.menu))
    ⊎ ((confirmed.0 ≡ ok tt) × Named as_is confirmed.2.menu)
confirm_bulk_import-Named_example =
    confirm_bulk_import-Named as_is no_sku locale head_waiter 5 1 500 local_pos previewed
      nothing_yet store Named-nothing_yet

-- A handler that counts its calls
abbrev count : Request → ℕ → Result ℕ × ℕ
count r n = (ok n, n + 1)

abbrev posted : Request
posted = record {
  key = 75 ∷ [];
  fingerprint = record { user = some 6; method = method (80 ∷ []); path = 47 ∷ []; body_hash = 1 };
}

abbrev answered : Result (Response ℕ) × List (Text × ReplayRecord ℕ) × ℕ
answered = send count 200 posted [] 0

send_once_example : send count 200 posted answered.1 1 ≡ (
  (if idempotency_matches posted.fingerprint posted.fingerprint
      then ok (record { status = 200; body = 0; replayed = true })
      else err key_reused),
  answered.1,
  1,
)
unfolding restaurant_pos.Http.Replay.can_replay lookup send
send_once_example =
    send_once count 200 posted posted [] answered.1 0 answered.2 1
      (record { status = 200; body = 0; replayed = false }) refl refl refl refl refl
