-- ===== src/Menu/Operations.antt =====
-- A run of the item operations of backend/menu/service.ts.
use restaurant_pos.Base.{ℕ, Bool, true, ◌&&◌, not, List, [], ◌∷◌, is_some, ◌||◌}
use restaurant_pos.Base.Text.{Text}
use restaurant_pos.Base.Result.{Result, ok, err}
use restaurant_pos.Store.{Store}
use restaurant_pos.Settings.Types.{Settings}
use restaurant_pos.Menu.Types.{Context, Menu, MenuItem, ItemInput, ItemPatch}
use restaurant_pos.Menu.Admin.{is_named, admin_delete_category}
use restaurant_pos.Menu.Items.{
  admin_create_item, admin_update_item, admin_delete_item, admin_set_item_availability,
  admin_set_item_promotional_flag,
}

-- One call of an operation on the items, with what it takes besides the settings and the context.
pub data Operation : Type 0 where
  create : ItemInput → Text → ℕ → ℕ → ℕ → ℕ → Operation
  update : ℕ → ItemPatch → ℕ → Operation
  delete : ℕ → ℕ → Operation
  set_availability : ℕ → Bool → ℕ → Operation
  set_promotional : ℕ → Bool → ℕ → Operation
  delete_category : ℕ → ℕ → Operation

-- The menu after an operation that may throw
abbrev pub menu_after : Menu → Result (MenuItem × Menu) → Menu
menu_after m (ok (_, m')) = m'
menu_after m (err e) = m

-- An update that names the item, or leaves it under its name in its category
unfoldable pub names_its_item : Operation → Bool
names_its_item (update id p now) =
    is_named p.name || (not (is_some p.name) && not (is_some p.category))
names_its_item _ = true

module _ (lower : Text → Text) (settings : Settings) (x : Context) where
  unfoldable pub run : Operation → Store × Menu → Store × Menu
  unfolding admin_create_item admin_update_item admin_delete_item admin_set_item_availability
      admin_set_item_promotional_flag admin_delete_category
  run (create input sku id inventory_id movement_id now) (s, m) =
      let r = admin_create_item lower settings x input sku id inventory_id movement_id now m s in
      (r.1, menu_after m r.0)
  run (update id p now) (s, m) = (s, menu_after m (admin_update_item lower settings x id p now m))
  run (delete id now) (s, m) = (s, (admin_delete_item x id now m).1)
  run (set_availability id b now) (s, m) =
      (s, menu_after m (admin_set_item_availability x id b now m))
  run (set_promotional id b now) (s, m) =
      (s, menu_after m (admin_set_item_promotional_flag x id b now m))
  run (delete_category id now) (s, m) = (s, (admin_delete_category x id now m).1)

  unfoldable pub run_all : List Operation → Store × Menu → Store × Menu
  unfolding run
  run_all [] s = s
  run_all (o ∷ os) s = run_all os (run o s)
