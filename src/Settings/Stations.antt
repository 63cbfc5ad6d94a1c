-- ===== src/Settings/Stations.antt =====
-- `normalizePrepStations`, `normalizePrinters`, `normalizePrinterAssignments` and
-- `updatePosOperationalSettings` of backend/config/posSettings.ts.
use restaurant_pos.Base.{
  ℕ, ◌+◌, ◌*◌, suc, Bool, true, false, ◌&&◌, ◌||◌, not, Option, none, some, List, [], ◌∷◌, ◌++◌,
  if◌then◌else◌, find, some_of, map, is_some, select,
}
use restaurant_pos.Base.Int.{ℤ, pos, leb_ℤ, ltb_ℤ}
use restaurant_pos.Base.Text.{Text, trim, same_text, is_blank_text}
use restaurant_pos.Base.Result.{Result, ok, and_then, check, station_required}
use restaurant_pos.Settings.Inherited.{is_inherited}
use restaurant_pos.Settings.Slug.{slugify_station_id, title_of}
use restaurant_pos.Settings.Types.{
  Printer, PrinterInput, PrepStation, PrepStationInput, Dict, Settings, SettingsInput,
}
use restaurant_pos.Settings.Normalize.{
  Locale, receipt, given, first_of, text_of, clean_text, optional_text, normalize_printer,
  no_printer_input, normalize_tax, normalize_service_charge, lookup, assign, keys,
}

abbrev pub same_id : Text → PrepStation → Bool
same_id id s = same_text s.id id

abbrev map_name : Option PrepStation → Option Text
map_name none = none
map_name (some s) = some s.display_name

abbrev map_enabled : Option PrepStation → Bool
map_enabled none = true
map_enabled (some s) = s.enabled

abbrev map_order : Option PrepStation → ℕ → ℤ
map_order none index = pos ((index + 1) * 10)
map_order (some s) index = s.sort_order

-- The station that one entry of the input gives, under its id
unfoldable pub station_of : Locale → List PrepStation → PrepStationInput → Text → ℕ → PrepStation
unfolding clean_text title_of
station_of l fallback raw id index =
    let existing = find (same_id id) fallback in
    record {
      id = id;
      display_name =
          clean_text (first_of raw.display_name raw.name)
            (given (map_name existing) (title_of false id));
      enabled = given raw.enabled (map_enabled existing);
      sort_order = given raw.sort_order (map_order existing index);
    }

-- `source.forEach(...)`: an entry without an id, or with that of the receipt printer, is left out.
unfoldable pub collect :
    Locale → List PrepStation → List PrepStationInput → ℕ → Dict PrepStation → Dict PrepStation
unfolding slugify_station_id station_of assign
collect l fallback [] index by_id = by_id
collect l fallback (raw ∷ rest) index by_id =
    let id = slugify_station_id (text_of (first_of raw.id (first_of raw.name raw.display_name))) in
    collect l fallback rest (suc index) (
      if is_blank_text id || same_text id receipt
      then by_id
      else assign by_id id (station_of l fallback raw id index))

-- A stored station as an input
abbrev as_input : PrepStation → PrepStationInput
as_input s = record {
  id = some s.id;
  name = none;
  display_name = some s.display_name;
  enabled = some s.enabled;
  sort_order = some s.sort_order;
}

-- `byId.set(station.id, station)` for each station in force, when the input had none
unfoldable pub keep_all : List PrepStation → Dict PrepStation → Dict PrepStation
unfolding assign
keep_all [] by_id = by_id
keep_all (s ∷ rest) by_id = keep_all rest (assign by_id s.id s)

unfoldable pub station_before : Locale → PrepStation → PrepStation → Bool
station_before l a b =
    ltb_ℤ a.sort_order b.sort_order
    || (leb_ℤ a.sort_order b.sort_order && l.name_before a.display_name b.display_name)

unfoldable pub insert_station : Locale → PrepStation → List PrepStation → List PrepStation
unfolding station_before
insert_station l a [] = a ∷ []
insert_station l a (b ∷ rest) =
    let later = insert_station l a rest in if station_before l b a then b ∷ later else a ∷ b ∷ rest

unfoldable pub sort_stations : Locale → Dict PrepStation → List PrepStation
unfolding insert_station
sort_stations l [] = []
sort_stations l ((_, a) ∷ rest) = insert_station l a (sort_stations l rest)

abbrev or_kept : List PrepStation → Dict PrepStation → Dict PrepStation
or_kept fallback [] = keep_all fallback []
or_kept fallback (e ∷ by_id) = e ∷ by_id

unfoldable pub normalize_prep_stations :
    Locale → Option (List PrepStationInput) → List PrepStation → List PrepStation
unfolding collect keep_all sort_stations
normalize_prep_stations l input fallback =
    sort_stations l
      (or_kept fallback (collect l fallback (given input (map as_input fallback)) 0 []))

-- The printer that a key stands for when the settings have none
unfoldable pub fallback_printer : Locale → List PrepStation → Dict Printer → Text → Printer
unfolding lookup
fallback_printer l stations fallback key = given (lookup fallback key) (
    if same_text key receipt
    then l.receipt_printer
    else l.default_printer key (given (map_name (find (same_id key) stations)) key))

unfoldable pub add_printers :
    Locale
    → Dict PrinterInput
    → List PrepStation
    → Dict Printer
    → List Text
    → Dict Printer
    → Dict Printer
unfolding normalize_printer fallback_printer lookup assign
add_printers l input stations fallback [] printers = printers
add_printers l input stations fallback (key ∷ rest) printers =
    add_printers l input stations fallback rest (
      assign printers key (
        normalize_printer (given (lookup input key) no_printer_input)
          (fallback_printer l stations fallback key)))

abbrev pub ids_of : List PrepStation → List Text
ids_of [] = []
ids_of (s ∷ rest) = s.id ∷ ids_of rest

unfoldable pub normalize_printers :
    Locale → Dict PrinterInput → List PrepStation → Dict Printer → Dict Printer
unfolding add_printers
normalize_printers l input stations fallback =
    add_printers l input stations fallback
      (keys fallback ++ (keys input ++ (receipt ∷ ids_of stations))) []

-- `printers[name]` as a test: a printer of the object, or a name that it inherits
unfoldable pub has_printer : Dict Printer → Text → Bool
unfolding lookup is_inherited
has_printer printers name = is_some (lookup printers name) || is_inherited name

-- The printer that an operation is assigned to: the one asked for, else its own, else the receipt's.
unfoldable pub assigned_printer : Dict Text → Dict Printer → Dict Text → Text → Text
unfolding lookup trim has_printer
assigned_printer input printers fallback operation =
    let requested =
      trim (given (first_of (lookup input operation) (lookup fallback operation)) operation) in
    if has_printer printers requested
    then requested
    else if has_printer printers operation
    then operation
    else receipt

unfoldable pub assign_each :
    Dict Text → Dict Printer → Dict Text → List Text → Dict Text → Dict Text
unfolding assigned_printer assign
assign_each input printers fallback [] done = done
assign_each input printers fallback (operation ∷ rest) done =
    assign_each input printers fallback rest
      (assign done operation (assigned_printer input printers fallback operation))

unfoldable pub normalize_printer_assignments :
    Dict Text → List PrepStation → Dict Printer → Dict Text → Dict Text
unfolding assign_each
normalize_printer_assignments input stations printers fallback =
    assign_each input printers fallback (receipt ∷ ids_of stations) []

-- The settings that an input makes of those in force; without PostgreSQL they are only in memory.
unfoldable pub update_pos_operational_settings : Locale → SettingsInput → Settings → Result Settings
unfolding normalize_prep_stations normalize_printers normalize_printer_assignments normalize_tax
    normalize_service_charge clean_text optional_text
update_pos_operational_settings l input current =
    let stations = normalize_prep_stations l input.prep_stations current.prep_stations in
    let printers = normalize_printers l input.printers stations current.printers in
    and_then (normalize_tax input.tax_enabled input.tax_rate current.tax) λ tax.
      and_then (normalize_service_charge input.service_charge_rate current.service_charge_rate)
        λ rate. ok (record {
          menu_inventory_link_enabled =
              given input.menu_inventory_link_enabled current.menu_inventory_link_enabled;
          bill_info = record {
            restaurant_name =
                clean_text input.bill_info.restaurant_name current.bill_info.restaurant_name;
            address = clean_text input.bill_info.address current.bill_info.address;
            contact = clean_text input.bill_info.contact current.bill_info.contact;
            tax_id = optional_text input.bill_info.tax_id current.bill_info.tax_id;
            receipt_footer =
                optional_text input.bill_info.receipt_footer current.bill_info.receipt_footer;
          };
          tax = tax;
          service_charge_rate = rate;
          prep_stations = stations;
          printers = printers;
          printer_assignments =
              normalize_printer_assignments input.printer_assignments stations printers
                current.printer_assignments;
        })

-- `isConfiguredPrepStation`, among the enabled stations
unfoldable pub is_configured_prep_station : Settings → Text → Bool
is_configured_prep_station s station =
    not (is_blank_text station)
    && some_of (same_id station) (select (λ x. x.enabled) s.prep_stations)

unfoldable pub normalize_prep_station_id : Text → Result Text
unfolding slugify_station_id
normalize_prep_station_id value =
    let station = slugify_station_id value in
    and_then (check (not (is_blank_text station)) station_required) λ _. ok station
