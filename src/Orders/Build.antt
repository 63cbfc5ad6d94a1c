-- ===== src/Orders/Build.antt =====
-- How backend/orders/service.ts makes an order item of a menu item. An id is a number here and a text
-- in the code: the text that an id stands for is a parameter.
use restaurant_pos.Base.{
  ℕ, ◌+◌, ◌*◌, Bool, true, false, not, Option, none, some, List, [], ◌∷◌, ◌++◌, ◌==◌, if◌then◌else◌,
}
use restaurant_pos.Base.Int.{ℤ, pos, negsuc}
use restaurant_pos.Base.Text.{Text, trim, same_text, is_blank_text}
use restaurant_pos.Base.Result.{
  Result, ok, err, and_then, check, or_error, bad_quantity, menu_item_not_found, other_branch,
  category_not_found, item_unavailable, forbidden, override_reason_required,
}
use restaurant_pos.Auth.Policy.{User, can, manage_menu}
use restaurant_pos.Money.{gross_of}
use restaurant_pos.Menu.Types.{Menu, MenuItem}
use restaurant_pos.Menu.Repository.{item_by_id, category_by_id}
use restaurant_pos.Orders.Types.{OrderItem, Station, kitchen, bar, station}

-- `OrderMenuItemInput`, with the id that `createId` gives the item; the quantity is in thousandths.
pub record OrderMenuItemInput : Type 0 where
  pub new_id : ℕ
  pub menu_item : ℕ
  pub quantity : ℤ
  pub note : Option Text
  pub modifiers : Option (List Text)
  pub allow_unavailable_override : Bool
  pub override_reason : Option Text

abbrev word_kitchen : Text
word_kitchen = 107 ∷ 105 ∷ 116 ∷ 99 ∷ 104 ∷ 101 ∷ 110 ∷ []

abbrev word_bar : Text
word_bar = 98 ∷ 97 ∷ 114 ∷ []

-- The number of a text: a numeral with a digit for each code point.
abbrev number_of : Text → ℕ
number_of [] = 0
number_of (c ∷ cs) = 1 + c + 1_114_112 * number_of cs

-- The station that a configured id stands for
unfoldable pub station_of_id : Text → Station
station_of_id t =
    if same_text t word_kitchen
    then kitchen
    else if same_text t word_bar
    then bar
    else station (number_of t)

abbrev map_station : Option Text → Option Station
map_station none = none
map_station (some t) = some (station_of_id t)

-- `assertValidQuantity`
unfoldable pub assert_valid_quantity : ℤ → Result ℕ
assert_valid_quantity (negsuc n) = err bad_quantity
assert_valid_quantity (pos n) = and_then (check (not (n == 0)) bad_quantity) λ _. ok n

abbrev trimmed : List Text → List Text
trimmed [] = []
trimmed (t ∷ ts) = let rest = trimmed ts in if is_blank_text (trim t) then rest else trim t ∷ rest

abbrev non_empty : List Text → Option (List Text)
non_empty [] = none
non_empty (t ∷ ts) = some (t ∷ ts)

-- `normalizeModifiers`
unfoldable pub normalize_modifiers : Option (List Text) → Option (List Text)
unfolding trim
normalize_modifiers none = none
normalize_modifiers (some ts) = non_empty (trimmed ts)

abbrev pub gives_reason : Option Text → Bool
gives_reason none = false
gives_reason (some t) = not (is_blank_text (trim t))

-- `assertAuthorizedUnavailableOverride`
unfoldable pub assert_authorized_unavailable_override :
    User → OrderMenuItemInput → Result (Unit {0})
unfolding trim
assert_authorized_unavailable_override user input =
    and_then (check input.allow_unavailable_override item_unavailable) λ _.
      and_then (check (can user manage_menu) forbidden)
        λ _. check (gives_reason input.override_reason) override_reason_required

abbrev when : Bool → Result (Unit {0}) → Result (Unit {0})
when true r = r
when false r = ok tt

module _ (text_of_id : ℕ → Text) where
  -- `itemFromMenuRecord`; `label` is `${menuItemId} ${name}`.
  unfoldable pub item_from_menu_record : MenuItem → OrderMenuItemInput → ℕ → OrderItem
  unfolding normalize_modifiers gross_of station_of_id
  item_from_menu_record i input quantity = record {
    id = input.new_id;
    menu_item = i.id;
    label = text_of_id i.id ++ (32 ∷ i.name);
    prep_station = map_station i.prep_station;
    quantity = quantity;
    unit_price = i.price;
    note = input.note;
    modifiers = normalize_modifiers input.modifiers;
    inventory_item = i.inventory_item;
    line_total = gross_of quantity i.price;
  }

  unfoldable pub build_order_item_from_menu :
      User → ℕ → Menu → OrderMenuItemInput → Result OrderItem
  unfolding assert_valid_quantity item_by_id category_by_id assert_authorized_unavailable_override
      item_from_menu_record
  build_order_item_from_menu user branch m input =
      and_then (assert_valid_quantity input.quantity) λ quantity.
        and_then (or_error (item_by_id m input.menu_item) menu_item_not_found) λ i.
          and_then (check (i.branch == branch) other_branch) λ _.
            and_then (or_error (category_by_id m i.category) category_not_found) λ c.
              and_then (check (c.branch == branch) other_branch) λ _.
                let override = assert_authorized_unavailable_override user input in
                and_then (when (not i.is_available) override) λ _.
                  and_then (when (not i.is_active) override) λ _.
                    and_then (when (not c.is_active) override)
                      λ _. ok (item_from_menu_record i input quantity)

  unfoldable pub build_order_items_from_menu :
      User → ℕ → Menu → List OrderMenuItemInput → Result (List OrderItem)
  unfolding build_order_item_from_menu
  build_order_items_from_menu user branch m [] = ok []
  build_order_items_from_menu user branch m (input ∷ inputs) =
      let rest = build_order_items_from_menu user branch m inputs in
      and_then (build_order_item_from_menu user branch m input)
        λ item. and_then rest λ items. ok (item ∷ items)
