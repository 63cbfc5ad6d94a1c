-- ===== src/Menu/Repository.antt =====
-- The lookups and writes of backend/menu/repository.ts, over its in-memory maps. A deleted row stays
-- in its map and is looked over. `toLowerCase` is a parameter: nothing depends on its table.
use restaurant_pos.Base.{
  ℕ, Bool, not, ◌&&◌, Option, none, some, List, ◌==◌, find, select, if◌then◌else◌, is_some,
}
use restaurant_pos.Base.Text.{Text, trim, same_text}
use restaurant_pos.Base.Table.{get, put, values}
use restaurant_pos.Menu.Types.{Menu, Category, MenuItem}

-- `!row.deletedAt`
abbrev pub category_lives : Category → Bool
category_lives c = not (is_some c.deleted_at)

abbrev pub item_lives : MenuItem → Bool
item_lives i = not (is_some i.deleted_at)

unfoldable pub category_by_id : Menu → ℕ → Option Category
category_by_id m id = elim (get m.categories id) [
  | none ↦ none
  | some c ↦ if category_lives c then some c else none
]

unfoldable pub item_by_id : Menu → ℕ → Option MenuItem
item_by_id m id = elim (get m.items id) [
  | none ↦ none
  | some i ↦ if item_lives i then some i else none
]

-- `listItems(categoryId)`
unfoldable pub list_items : Menu → ℕ → List MenuItem
list_items m category = select (λ i. item_lives i && i.category == category) (values m.items)

-- The rows of `listCategories` in the order of the map; the caller sorts them for display.
unfoldable pub list_categories : Menu → List Category
list_categories m = select category_lives (values m.categories)

unfoldable pub put_category : Menu → Category → Menu
put_category m c = record m { categories = put m.categories c.id c }

unfoldable pub put_item : Menu → MenuItem → Menu
put_item m i = record m { items = put m.items i.id i }

module _ (lower : Text → Text) where
  -- `name.trim().toLowerCase()`
  abbrev pub name_key : Text → Text
  name_key name = lower (trim name)

  abbrev pub names_category : Text → ℕ → Category → Bool
  names_category name branch c =
      category_lives c && (c.branch == branch && same_text (name_key c.name) (name_key name))

  abbrev pub names_item : ℕ → Text → MenuItem → Bool
  names_item category name i =
      item_lives i && (i.category == category && same_text (name_key i.name) (name_key name))

  unfoldable pub category_by_name : Menu → Text → ℕ → Option Category
  category_by_name m name branch = find (names_category name branch) (values m.categories)

  unfoldable pub item_by_name_in_category : Menu → ℕ → Text → Option MenuItem
  item_by_name_in_category m category name = find (names_item category name) (values m.items)
