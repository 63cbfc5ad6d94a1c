-- ===== src/Menu/Bulk/Import.antt =====
-- `importRows` of backend/menu/bulkImport/service.ts, on the in-memory repositories.
use restaurant_pos.Base.{
  ℕ, ◌+◌, ◌/◌, suc, Bool, true, false, ◌&&◌, Option, none, some, List, [], ◌∷◌, ◌++◌, ◌==◌,
  if◌then◌else◌, some_of, map,
}
use restaurant_pos.Base.Int.{ℤ, pos, ◌+ℤ◌, ltb_ℤ}
use restaurant_pos.Base.Text.{Text, trim, same_text}
use restaurant_pos.Base.Result.{Result, ok, err, and_then, category_unresolved}
use restaurant_pos.Store.{Store, menu_bulk_import}
use restaurant_pos.Auth.Policy.{User}
use restaurant_pos.Billing.Access.{record_audit_event}
use restaurant_pos.Settings.Types.{PrepStation}
use restaurant_pos.Settings.Normalize.{Locale, lookup}
use restaurant_pos.Settings.Whole.{station_input}
use restaurant_pos.Settings.Types.{Dict, SettingsInput}
use restaurant_pos.Settings.Stations.{
  update_pos_operational_settings, normalize_prep_station_id, same_id,
}
use restaurant_pos.Menu.Types.{MenuItem, Category, Context, ItemInput, ItemPatch}
use restaurant_pos.Menu.Repository.{item_by_name_in_category}
use restaurant_pos.Menu.Items.{admin_create_item, admin_update_item}
use restaurant_pos.Menu.Bulk.Validator.{ImportRow}
use restaurant_pos.Menu.Bulk.Categories.{
  TokenRecord, Imported, normalized, unique_in_order, import_categories,
}

module _ (lower : Text → Text) where
  -- The stations that the rows name and the settings have not
  unfoldable pub add_stations : List Text → ℤ → List PrepStation → Result (List PrepStation)
  unfolding normalize_prep_station_id
  add_stations [] order stations = ok stations
  add_stations (name ∷ names) order stations = and_then (normalize_prep_station_id name) λ id.
      if some_of (same_id id) stations
      then add_stations names order stations
      else add_stations names (order +ℤ pos 10) (
          stations
          ++ (record { id = id; display_name = name; enabled = true; sort_order = order +ℤ pos 10 }
              ∷ []))

  abbrev is_same_station : Option Text → Text → Bool
  is_same_station none id = false
  is_same_station (some t) id = same_text t id

  -- The row says what the item is already; prices are compared in cents.
  abbrev pub is_unchanged : MenuItem → ImportRow → Text → Bool
  is_unchanged i r station =
      i.price == (r.price + 5) / 10
      && (is_same_station i.prep_station station && (i.is_active && i.is_available))

  abbrev pub item_of_row : ℕ → ℕ → ImportRow → Text → ItemInput
  item_of_row branch category r station = record {
    branch = some branch;
    category = category;
    name = r.name;
    description = none;
    price = pos r.price;
    prep_station = some station;
    tax_mode = none;
    tax_rate = none;
    inventory_item = none;
    inventory_unit = none;
    inventory_minimum_threshold = none;
    inventory_current_stock = none;
    is_available = some true;
    is_active = some true;
    is_promotional = none;
  }

  abbrev pub patch_of_row : ℕ → ImportRow → Text → ItemPatch
  patch_of_row category r station = record {
    branch = none;
    category = some category;
    name = none;
    description = none;
    price = some (pos r.price);
    prep_station = some station;
    tax_mode = none;
    tax_rate = none;
    inventory_item = none;
    inventory_unit = none;
    inventory_minimum_threshold = none;
    inventory_current_stock = none;
    is_available = some true;
    is_active = some true;
    is_promotional = none;
  }

  module _ (sku_of : ℕ → Text) where
    -- One row: the item is made, updated, or left as it is.
    unfoldable pub import_row :
        Context
        → ℕ
        → ℕ
        → Dict Category
        → ImportRow
        → Imported
        → Store
        → Result (Unit {0}) × Imported × Store
    unfolding lookup normalize_prep_station_id item_by_name_in_category admin_create_item
        admin_update_item trim
    import_row x branch now known r s st = elim (lookup known (normalized lower r.category)) [
      | none ↦ (err category_unresolved, s, st)
      | some c ↦ elim (normalize_prep_station_id r.station) [
        | err e ↦ (err e, s, st)
        | ok station ↦ elim (item_by_name_in_category lower s.menu c.id r.name) [
          | none ↦
              let (made, after) =
                admin_create_item lower s.settings x (item_of_row branch c.id r station)
                  (sku_of s.next_id) s.next_id (suc s.next_id) (suc (suc s.next_id)) now s.menu
                  st in
              elim made [
                | err e ↦ (err e, s, after)
                | ok m ↦
                    (ok tt, record s { menu = m.1; next_id = suc (suc (suc s.next_id)) }, after)
              ]
          | some i ↦
              if is_unchanged i r station
              then (ok tt, s, st)
              else elim (admin_update_item lower s.settings x i.id (patch_of_row c.id r station) now
                  s.menu) [ err e ↦ (err e, s, st) | ok m ↦ (ok tt, record s { menu = m.1 }, st) ]
        ]
      ]
    ]

    -- A row that fails leaves what the rows before it did.
    unfoldable pub import_each :
        Context
        → ℕ
        → ℕ
        → Dict Category
        → List ImportRow
        → Imported
        → Store
        → Result (Unit {0}) × Imported × Store
    unfolding import_row
    import_each x branch now known [] s st = (ok tt, s, st)
    import_each x branch now known (r ∷ rs) s st =
        let (done, s1, st1) = import_row x branch now known r s st in
        elim done [ err e ↦ (err e, s1, st1) | ok _ ↦ import_each x branch now known rs s1 st1 ]

    abbrev greatest_order : List PrepStation → ℤ → ℤ
    greatest_order [] z = z
    greatest_order (x ∷ xs) z = greatest_order xs (if ltb_ℤ z x.sort_order then x.sort_order else z)

    abbrev grew : List PrepStation → List PrepStation → Bool
    grew [] [] = false
    grew [] (_ ∷ _) = true
    grew (_ ∷ xs) [] = false
    grew (_ ∷ xs) (_ ∷ ys) = grew xs ys

    abbrev stations_only : List PrepStation → SettingsInput
    stations_only stations = record {
      menu_inventory_link_enabled = none;
      bill_info = record {
        restaurant_name = none;
        address = none;
        contact = none;
        tax_id = none;
        receipt_footer = none;
      };
      tax_enabled = none;
      tax_rate = none;
      service_charge_rate = none;
      prep_stations = some (map station_input stations);
      printers = [];
      printer_assignments = [];
    }

    -- The settings with the stations of the rows; none is saved where there is nothing new.
    unfoldable pub import_stations :
        Locale → List ImportRow → Imported → Result (Unit {0}) × Imported
    unfolding add_stations unique_in_order update_pos_operational_settings
    import_stations l rows s =
        let old = s.settings.prep_stations in
        elim (add_stations (unique_in_order lower [] (map (λ r. r.station) rows))
          (greatest_order old (pos 0)) old) [
            | err e ↦ (err e, s)
            | ok stations ↦
                if grew old stations
                then elim (update_pos_operational_settings l (stations_only stations) s.settings) [
                  | err e ↦ (err e, s)
                  | ok settings ↦ (ok tt, record s { settings = settings })
                ]
                else (ok tt, s)
          ]

    -- The body of the `try` in `importRows`, with the state it leaves where it throws
    unfoldable pub import_rows :
        Locale → User → TokenRecord → ℕ → Imported → Store → Result (Unit {0}) × Imported × Store
    unfolding import_categories import_stations import_each record_audit_event
    import_rows l user r now s st =
        let x : Context = record { source = r.source; actor = some user.id; event = none } in
        let (known, s1) = import_categories lower x r now s in
        elim known [
          | err e ↦ (err e, s1, st)
          | ok categories ↦
              let (saved, s2) = import_stations l r.rows s1 in
              elim saved [
                | err e ↦ (err e, s2, st)
                | ok _ ↦
                    let (done, s3, st3) = import_each x r.branch now categories r.rows s2 st in
                    elim done [
                      | err e ↦ (err e, s3, st3)
                      | ok _ ↦ (
                        ok tt,
                        s3,
                        (record_audit_event menu_bulk_import user.id r.branch 0 now st3).1,
                      )
                    ]
              ]
        ]
