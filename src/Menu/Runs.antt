-- ===== src/Menu/Runs.antt =====
-- A run of operations on the menu, and the names of its items after it.
use restaurant_pos.Base.{
  ℕ, ◌≡◌, refl, sym, subst, inl, inr, Bool, true, List, [], ◌∷◌, every, arith, Option-cases,
}
use restaurant_pos.Base.Text.{Text}
use restaurant_pos.Store.{Store}
use restaurant_pos.Settings.Types.{Settings}
use restaurant_pos.Menu.Types.{Context, Menu, MenuItem}
use restaurant_pos.Menu.Repository.{item_by_id, put_item, put_category, category_by_id, list_items}
use restaurant_pos.Menu.Admin.{
  stamp_item, retire_item, retire_item, retire_items, admin_delete_category,
}
use restaurant_pos.Menu.Items.{
  admin_delete_item, admin_set_item_availability, admin_set_item_promotional_flag,
}
use restaurant_pos.Menu.Unique.{Unique}
use restaurant_pos.Menu.Keeps.{same_place-Unique, retired-Unique}
use restaurant_pos.Menu.Operations.{
  Operation, create, update, delete, set_availability, set_promotional, delete_category, menu_after,
  run, run_all, names_its_item,
}
use restaurant_pos.Menu.Changes.{create-Unique, update-Unique}

module _ (lower : Text → Text) (settings : Settings) (x : Context) where
  delete-Unique :
      (id now : ℕ) (m : Menu) → Unique lower m → Unique lower (admin_delete_item x id now m).1
  unfolding admin_delete_item
  delete-Unique id now m u = elim (Option-cases (item_by_id m id)) [
    | inl e ↦
        let same : (admin_delete_item x id now m).1 ≡ m = ground arith in
        subst (Unique lower) (sym same) u
    | inr (i, e) ↦
        let after : (admin_delete_item x id now m).1 ≡ put_item m (retire_item x now i) =
          ground arith in
        subst (Unique lower) (sym after) (retired-Unique lower m (retire_item x now i) u refl)
  ]

  availability-Unique :
      (id : ℕ) (b : Bool) (now : ℕ) (m : Menu)
      → Unique lower m
      → Unique lower (menu_after m (admin_set_item_availability x id b now m))
  unfolding admin_set_item_availability
  availability-Unique id b now m u = elim (Option-cases (item_by_id m id)) [
    | inl e ↦
        let same : menu_after m (admin_set_item_availability x id b now m) ≡ m = ground arith in
        subst (Unique lower) (sym same) u
    | inr (i, e) ↦
        let next = stamp_item x now (record i { is_available = b }) in
        let after : menu_after m (admin_set_item_availability x id b now m) ≡ put_item m next =
          ground arith in
        subst (Unique lower) (sym after) (same_place-Unique lower m id i next u e refl refl refl)
  ]

  promotional-Unique :
      (id : ℕ) (b : Bool) (now : ℕ) (m : Menu)
      → Unique lower m
      → Unique lower (menu_after m (admin_set_item_promotional_flag x id b now m))
  unfolding admin_set_item_promotional_flag
  promotional-Unique id b now m u = elim (Option-cases (item_by_id m id)) [
    | inl e ↦
        let same : menu_after m (admin_set_item_promotional_flag x id b now m) ≡ m = ground arith in
        subst (Unique lower) (sym same) u
    | inr (i, e) ↦
        let next = stamp_item x now (record i { is_promotional = b }) in
        let after : menu_after m (admin_set_item_promotional_flag x id b now m) ≡ put_item m next =
          ground arith in
        subst (Unique lower) (sym after) (same_place-Unique lower m id i next u e refl refl refl)
  ]

  retire_items-Unique :
      (now : ℕ) (is : List MenuItem) (m : Menu)
      → Unique lower m
      → Unique lower (retire_items x now is m)
  unfolding retire_items
  retire_items-Unique now [] m u = u
  retire_items-Unique now (i ∷ is) m u =
      retire_items-Unique now is _ (retired-Unique lower m (retire_item x now i) u refl)

  delete_category-Unique :
      (id now : ℕ) (m : Menu) → Unique lower m → Unique lower (admin_delete_category x id now m).1
  unfolding admin_delete_category put_category
  delete_category-Unique id now m u = elim (Option-cases (category_by_id m id)) [
    | inl e ↦
        let same : (admin_delete_category x id now m).1 ≡ m = ground arith in
        subst (Unique lower) (sym same) u
    | inr (c, e) ↦
        let v = retire_items-Unique now (list_items m id) m u in
        let items : (admin_delete_category x id now m).1.items
            ≡ (retire_items x now (list_items m id) m).items =
          ground arith in
        record { keyed = rw items v.keyed; one = rw items v.one }
  ]

  run-Unique :
      (o : Operation) (s : Store) (m : Menu)
      → names_its_item o ≡ true
      → Unique lower m
      → Unique lower (run lower settings x o (s, m)).1
  unfolding run
  run-Unique (create input sku id inv mov now) s m c u =
      create-Unique lower settings x input sku id inv mov now m s u
  run-Unique (update id p now) s m c u = update-Unique lower settings x id p now m c u
  run-Unique (delete id now) s m c u = delete-Unique id now m u
  run-Unique (set_availability id b now) s m c u = availability-Unique id b now m u
  run-Unique (set_promotional id b now) s m c u = promotional-Unique id b now m u
  run-Unique (delete_category id now) s m c u = delete_category-Unique id now m u

  -- However the items are created, updated, switched and deleted, and their categories deleted, no
  -- two live items of a category have the same name but for case and the space around it, as long
  -- as each update names its item or leaves both its name and its category alone, and that was so at
  -- the start, with each item under its id.
  pub run_all-Unique :
      (os : List Operation) (s : Store) (m : Menu)
      → every names_its_item os ≡ true
      → Unique lower m
      → Unique lower (run_all lower settings x os (s, m)).1
  unfolding run_all
  run_all-Unique [] s m c u = u
  run_all-Unique (o ∷ os) s m c u =
      run_all-Unique os (run lower settings x o (s, m)).0 (run lower settings x o (s, m)).1
        (ground arith) (run-Unique o s m (ground arith) u)
