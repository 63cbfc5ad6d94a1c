-- ===== src/Menu/Items.antt =====
-- The item operations of backend/menu/service.ts. With the inventory link on, a new item of the local
-- menu gets an inventory item of its own, so that operation runs on the store as well.
use restaurant_pos.Base.{
  ℕ, Bool, true, false, not, ◌&&◌, ◌||◌, Option, none, some, [], ◌∷◌, if◌then◌else◌, is_some,
}
use restaurant_pos.Base.Int.{ℤ, pos}
use restaurant_pos.Base.Text.{Text, trim, is_blank_text}
use restaurant_pos.Base.Result.{
  Result, ok, and_then, check, or_error, item_exists, category_not_found, menu_item_not_found,
  unknown_station, cloud_inventory,
}
use restaurant_pos.Store.{M, pure, lift, ◌>>=◌}
use restaurant_pos.Settings.Types.{Settings}
use restaurant_pos.Settings.Normalize.{given, first_of, non_blank}
use restaurant_pos.Settings.Stations.{is_configured_prep_station, normalize_prep_station_id}
use restaurant_pos.Inventory.Types.{InventoryItem}
use restaurant_pos.Inventory.Ledger.{to_millionths}
use restaurant_pos.Inventory.Master.{create_inventory_master_item}
use restaurant_pos.Menu.Types.{
  Context, Source, local_pos, cloud_manager, Menu, MenuItem, ItemInput, ItemPatch, taxed,
}
use restaurant_pos.Menu.Price.{assert_valid_price}
use restaurant_pos.Menu.Repository.{category_by_id, item_by_id, item_by_name_in_category, put_item}
use restaurant_pos.Menu.Admin.{assert_name, checked_name, stamp_item, retire_item}

abbrev pub is_cloud : Source → Bool
is_cloud local_pos = false
is_cloud cloud_manager = true

abbrev is_text : Option Text → Bool
is_text none = false
is_text (some t) = not (is_blank_text t)

-- `normalizeValidStation`
unfoldable pub normalize_valid_station : Settings → Option Text → Result (Option Text)
unfolding normalize_prep_station_id is_configured_prep_station
normalize_valid_station s none = ok none
normalize_valid_station s (some []) = ok none
normalize_valid_station s (some (c ∷ cs)) =
    and_then (normalize_prep_station_id (c ∷ cs))
      λ id. and_then (check (is_configured_prep_station s id) unknown_station) λ _. ok (some id)

-- `assertValidPrice` on a value that may be left out; the result is in cents.
unfoldable pub optional_price : Option ℤ → Result (Option ℕ)
unfolding assert_valid_price
optional_price none = ok none
optional_price (some p) = and_then (assert_valid_price p) λ cents. ok (some cents)

-- Whether the input of a new item touches the inventory
unfoldable pub touches_inventory : ItemInput → Bool
touches_inventory i =
    is_some i.inventory_item
    || (is_text i.inventory_unit
        || (is_some i.inventory_minimum_threshold || is_some i.inventory_current_stock))

unfoldable pub patches_inventory : ItemPatch → Bool
patches_inventory i =
    is_some i.inventory_item
    || (is_some i.inventory_unit
        || (is_some i.inventory_minimum_threshold || is_some i.inventory_current_stock))

abbrev pub item_id : Option MenuItem → Option ℕ
item_id none = none
item_id (some i) = some i.id

-- `description?.trim() || undefined`
abbrev described : Option Text → Option Text
described none = none
described (some t) = non_blank (trim t)

unfoldable pub patch_item :
    ItemPatch → Option Text → Option ℕ → Option (Option Text) → Option ℕ → MenuItem → MenuItem
unfolding trim
patch_item p name price station rate i = record i {
  branch = given p.branch i.branch;
  category = given p.category i.category;
  name = given name i.name;
  description = if is_some p.description then described p.description else i.description;
  price = given price i.price;
  prep_station = given station i.prep_station;
  tax_mode = given p.tax_mode i.tax_mode;
  tax_rate = given rate i.tax_rate;
  inventory_item = first_of p.inventory_item i.inventory_item;
  is_available = given p.is_available i.is_available;
  is_active = given p.is_active i.is_active;
  is_promotional = given p.is_promotional i.is_promotional;
}

-- A station that is given is normalized; the empty text stands for no station.
abbrev pub patched_station : Settings → Option Text → Result (Option (Option Text))
patched_station settings none = ok none
patched_station settings (some t) =
    and_then (normalize_valid_station settings (some t)) λ station. ok (some station)

abbrev pub category_found : Menu → Option ℕ → Bool
category_found m none = true
category_found m (some c) = is_some (category_by_id m c)

module _ (lower : Text → Text) where
  -- The row of a new item, before the inventory is linked to it
  unfoldable pub new_item : Settings → Context → ItemInput → ℕ → ℕ → Menu → Result MenuItem
  unfolding touches_inventory category_by_id assert_name assert_valid_price normalize_valid_station
      optional_price item_by_name_in_category trim
  new_item settings x input new_id now m =
      and_then (check (not (is_cloud x.source && touches_inventory input)) cloud_inventory) λ _.
        and_then (or_error (category_by_id m input.category) category_not_found) λ c.
          and_then (assert_name input.name) λ name.
            and_then (assert_valid_price input.price) λ price.
              and_then (normalize_valid_station settings input.prep_station) λ station.
                and_then (optional_price input.tax_rate) λ rate.
                  and_then
                    (check (not (is_some (item_by_name_in_category lower m input.category name)))
                      item_exists)
                    λ _. ok (record {
                      id = new_id;
                      branch = given input.branch c.branch;
                      category = input.category;
                      name = name;
                      description = described input.description;
                      price = price;
                      prep_station = station;
                      tax_mode = given input.tax_mode taxed;
                      tax_rate = given rate 0;
                      inventory_item = input.inventory_item;
                      is_available = given input.is_available true;
                      is_active = given input.is_active true;
                      is_promotional = given input.is_promotional false;
                      created_at = now;
                      updated_at = now;
                      updated_source = x.source;
                      updated_by = x.actor;
                      event = x.event;
                      deleted_at = none;
                    })

  -- `createLinkedInventoryItemForMenuItem`; `sku` is the text of `MENU-${menuItem.id}`, and the
  -- opening stock in thousandths is passed on in millionths.
  unfoldable pub link_item : Text → ItemInput → MenuItem → ℕ → ℕ → ℕ → M InventoryItem
  unfolding create_inventory_master_item trim to_millionths
  link_item sku input i new_id movement_id now =
      create_inventory_master_item lower
        (record {
          branch = i.branch;
          sku = sku;
          name = i.name;
          unit = given (described input.inventory_unit) (101 ∷ 97 ∷ 99 ∷ 104 ∷ []);
          minimum_threshold = given input.inventory_minimum_threshold (pos 0);
          current_stock = to_millionths (given input.inventory_current_stock (pos 0));
          unit_cost = none;
        })
        new_id movement_id now

  -- `adminCreateItem`; the item and the menu afterwards
  unfoldable pub admin_create_item :
      Settings → Context → ItemInput → Text → ℕ → ℕ → ℕ → ℕ → Menu → M (MenuItem × Menu)
  unfolding new_item link_item put_item
  admin_create_item settings x input sku new_id inventory_id movement_id now m = do
    i ← lift (new_item settings x input new_id now m)
    if is_cloud x.source || (is_some i.inventory_item || not settings.menu_inventory_link_enabled)
        then pure (i, put_item m i)
        else (do
          linked ← link_item sku input i inventory_id movement_id now
          let next = record i { inventory_item = some linked.id }
          pure (next, put_item m next))

  unfoldable pub admin_update_item :
      Settings → Context → ℕ → ItemPatch → ℕ → Menu → Result (MenuItem × Menu)
  unfolding patches_inventory item_by_id category_by_id optional_price normalize_valid_station
      checked_name item_by_name_in_category patch_item put_item
  admin_update_item settings x id input now m =
      and_then (check (not (is_cloud x.source && patches_inventory input)) cloud_inventory) λ _.
        and_then (or_error (item_by_id m id) menu_item_not_found) λ i.
          and_then (check (category_found m input.category) category_not_found) λ _.
            and_then (optional_price input.price) λ price.
              and_then (patched_station settings input.prep_station) λ station.
                and_then (optional_price input.tax_rate) λ rate.
                  and_then
                    (checked_name
                      (λ name.
                        item_id
                          (item_by_name_in_category lower m (given input.category i.category) name))
                      item_exists id input.name)
                    λ name.
                      let next = stamp_item x now (patch_item input name price station rate i) in
                      ok (next, put_item m next)

unfoldable pub admin_delete_item : Context → ℕ → ℕ → Menu → Bool × Menu
unfolding item_by_id put_item
admin_delete_item x id now m = elim (item_by_id m id) [
  | none ↦ (false, m)
  | some i ↦ (true, put_item m (retire_item x now i))
]

unfoldable pub admin_set_item_availability :
    Context → ℕ → Bool → ℕ → Menu → Result (MenuItem × Menu)
unfolding item_by_id put_item
admin_set_item_availability x id available now m =
    and_then (or_error (item_by_id m id) menu_item_not_found) λ i.
      let next = stamp_item x now (record i { is_available = available }) in
      ok (next, put_item m next)

unfoldable pub admin_set_item_promotional_flag :
    Context → ℕ → Bool → ℕ → Menu → Result (MenuItem × Menu)
unfolding item_by_id put_item
admin_set_item_promotional_flag x id promotional now m =
    and_then (or_error (item_by_id m id) menu_item_not_found) λ i.
      let next = stamp_item x now (record i { is_promotional = promotional }) in
      ok (next, put_item m next)
