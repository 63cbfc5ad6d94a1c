-- ===== src/Menu/Changes.antt =====
-- Creating and updating an item, on the names of the items.
use restaurant_pos.Base.{
  ℕ, ◌≡◌, refl, sym, subst, inl, inr, true, ◌&&◌, not, Option, none, some, ◌⊎◌, arith, Bool-cases,
  Option-cases, is_some, ◌||◌,
}
use restaurant_pos.Base.Text.{Text}
use restaurant_pos.Base.Result.{Result-cases, ok, item_exists}
use restaurant_pos.Store.{Store}
use restaurant_pos.Settings.Types.{Settings}
use restaurant_pos.Settings.Normalize.{given}
use restaurant_pos.Menu.Types.{Context, Menu, MenuItem, ItemInput, ItemPatch}
use restaurant_pos.Menu.Repository.{item_by_id, put_item, item_by_name_in_category}
use restaurant_pos.Menu.Admin.{checked_name, is_named, stamp_item}
use restaurant_pos.Menu.Items.{
  new_item, is_cloud, link_item, admin_create_item, admin_update_item, patches_inventory,
  category_found, optional_price, patched_station, patch_item, item_id,
}
use restaurant_pos.Menu.Unique.{Unique}
use restaurant_pos.Menu.Keeps.{new_item-Unique, same_place-Unique, named-Unique, checked_name-eq-ok}
use restaurant_pos.Menu.Operations.{update, menu_after, names_its_item}

module _ (lower : Text → Text) (settings : Settings) (x : Context) where
  pub create_cases :
      (input : ItemInput) (sku : Text) (id inv mov now : ℕ) (m : Menu) (s : Store)
      → (menu_after m (admin_create_item lower settings x input sku id inv mov now m s).0 ≡ m)
        ⊎ ((i : MenuItem) × (link : Option ℕ) × (new_item lower settings x input id now m ≡ ok i)
            × (menu_after m (admin_create_item lower settings x input sku id inv mov now m s).0
                ≡ put_item m (record i { inventory_item = link })))
  unfolding admin_create_item
  create_cases input sku id inv mov now m s =
      elim (Result-cases (new_item lower settings x input id now m)) [
        | inr (z, e) ↦ inl (ground arith)
        | inl (i, e) ↦
            elim (Bool-cases (
              is_cloud x.source
              || (is_some i.inventory_item || not settings.menu_inventory_link_enabled))) [
                | inl t ↦ inr (i, i.inventory_item, e, ground arith)
                | inr f ↦ elim (Result-cases (link_item lower sku input i inv mov now s).0) [
                  | inr (z, g) ↦ inl (ground arith)
                  | inl (k, g) ↦ inr (i, some k.id, e, ground arith)
                ]
              ]
      ]

  pub create-Unique :
      (input : ItemInput) (sku : Text) (id inv mov now : ℕ) (m : Menu) (s : Store)
      → Unique lower m
      → Unique lower
          (menu_after m (admin_create_item lower settings x input sku id inv mov now m s).0)
  create-Unique input sku id inv mov now m s u = elim (create_cases input sku id inv mov now m s) [
    | inl same ↦ subst (Unique lower) (sym same) u
    | inr (i, link, e, after) ↦
        subst (Unique lower) (sym after)
          (new_item-Unique lower settings x input id now m i link u e)
  ]

  -- How an update that goes through finds its row and its name
  pub update_cases :
      (id : ℕ) (p : ItemPatch) (now : ℕ) (m : Menu)
      → (menu_after m (admin_update_item lower settings x id p now m) ≡ m)
        ⊎ ((i : MenuItem) × (name : Option Text) × (next : MenuItem) × (item_by_id m id ≡ some i)
            × (checked_name
                  (λ t. item_id (item_by_name_in_category lower m (given p.category i.category) t))
                  item_exists
                  id
                  p.name
                ≡ ok name)
            × (next.id ≡ i.id)
            × (next.category ≡ given p.category i.category)
            × (next.name ≡ given name i.name)
            × (menu_after m (admin_update_item lower settings x id p now m) ≡ put_item m next))
  unfolding admin_update_item patch_item
  update_cases id p now m = elim (Bool-cases (not (is_cloud x.source && patches_inventory p))) [
    | inr f ↦ inl (ground arith)
    | inl a ↦ elim (Option-cases (item_by_id m id)) [
      | inl e ↦ inl (ground arith)
      | inr (i, e) ↦ elim (Bool-cases (category_found m p.category)) [
        | inr f ↦ inl (ground arith)
        | inl b ↦ elim (Result-cases (optional_price p.price)) [
          | inr (z, e1) ↦ inl (ground arith)
          | inl (price, e1) ↦ elim (Result-cases (patched_station settings p.prep_station)) [
            | inr (z, e2) ↦ inl (ground arith)
            | inl (station, e2) ↦ elim (Result-cases (optional_price p.tax_rate)) [
              | inr (z, e3) ↦ inl (ground arith)
              | inl (rate, e3) ↦
                  elim (Result-cases (
                    checked_name
                      (λ t.
                        item_id (item_by_name_in_category lower m (given p.category i.category) t))
                      item_exists id p.name)) [
                        | inr (z, e4) ↦ inl (ground arith)
                        | inl (name, e4) ↦ inr (
                          i,
                          name,
                          stamp_item x now (patch_item p name price station rate i),
                          e,
                          e4,
                          refl,
                          refl,
                          refl,
                          ground arith,
                        )
                      ]
            ]
          ]
        ]
      ]
    ]
  ]

  pub update-Unique :
      (id : ℕ) (p : ItemPatch) (now : ℕ) (m : Menu)
      → names_its_item (update id p now) ≡ true
      → Unique lower m
      → Unique lower (menu_after m (admin_update_item lower settings x id p now m))
  unfolding names_its_item checked_name
  update-Unique id p now m c u = elim (update_cases id p now m) [
    | inl same ↦ subst (Unique lower) (sym same) u
    | inr (i, name, next, e, e4, at_id, at_category, at_name, after) ↦
        subst (Unique lower) (sym after) (elim (Bool-cases (is_named p.name)) [
          | inl n ↦
              let (t, stored, own) = checked_name-eq-ok _ item_exists id p.name name n e4 in
              let at : next.name ≡ t = ground arith in
              named-Unique lower m id i next u e at_id (ground (arith, own))
          | inr f ↦
              let no_name : p.name ≡ none = ground arith in
              let no_move : p.category ≡ none = ground arith in
              let kept : name ≡ none = ground arith in
              same_place-Unique lower m id i next u e at_id (ground arith) (ground arith)
        ])
  ]
