-- ===== src/Menu/Bulk/Names.antt =====
-- What a bulk import leaves of the menu: the names stay apart, and a failed import is put back.
use restaurant_pos.Base.{
  ℕ, suc, ◌≡◌, refl, sym, subst, inl, inr, ◌⊎◌, none, some, List, [], ◌∷◌, ◌==◌, arith, ltb, select,
  map, Bool-cases, Option-cases,
}
use restaurant_pos.Base.Int.{ℤ, pos, ◌+ℤ◌}
use restaurant_pos.Base.Text.{Text}
use restaurant_pos.Base.Table.{Table, get}
use restaurant_pos.Base.Result.{Error, ok, err, Result-cases, token_invalid, token_not_owned}
use restaurant_pos.Store.{Store}
use restaurant_pos.Auth.Policy.{User}
use restaurant_pos.Settings.Types.{Dict}
use restaurant_pos.Settings.Normalize.{Locale, lookup, assign}
use restaurant_pos.Settings.Stations.{normalize_prep_station_id}
use restaurant_pos.Menu.Types.{Context, Source, Menu, Category, CategoryInput}
use restaurant_pos.Menu.Repository.{list_categories, put_category, item_by_name_in_category}
use restaurant_pos.Menu.Admin.{admin_create_category}
use restaurant_pos.Menu.Items.{admin_create_item, admin_update_item}
use restaurant_pos.Menu.Operations.{menu_after}
use restaurant_pos.Menu.Bulk.Validator.{ImportRow}
use restaurant_pos.Menu.Bulk.Categories.{
  TokenRecord, Imported, normalized, greatest, by_name, unique_in_order, new_category,
  create_categories, import_categories, owns,
}
use restaurant_pos.Menu.Bulk.Import.{
  is_unchanged, item_of_row, patch_of_row, import_stations, import_row, import_each, import_rows,
}
use restaurant_pos.Menu.Bulk.Confirm.{confirm_bulk_import, restored}
use restaurant_pos.Menu.Bulk.Named.{Named, same_items, create-Named, update-Named}

module _ (lower : Text → Text) where
  category_items :
      (x : Context) (input : CategoryInput) (branch id now : ℕ) (m : Menu) (made : Category × Menu)
      → admin_create_category lower x input branch id now m ≡ ok made
      → m.items ≡ made.1.items
  unfolding admin_create_category put_category
  category_items x input branch id now m made h = ground arith

  create_categories-Named :
      (x : Context) (branch now : ℕ) (names : List Text) (order : ℤ) (known : Dict Category)
      (s : Imported)
      → Named lower s.menu
      → Named lower (create_categories lower x branch now names order known s).1.menu
  unfolding create_categories
  create_categories-Named x branch now [] order known s h = h
  create_categories-Named x branch now (name ∷ names) order known s h =
      let input = new_category lower branch name (order +ℤ pos 1) in
      elim (Option-cases (lookup known (normalized lower name))) [
        | inr (c, e) ↦
            let same : (create_categories lower x branch now (name ∷ names) order known s).1.menu
                ≡ (create_categories lower x branch now names order known s).1.menu =
              ground arith in
            subst (Named lower) (sym same)
              (create_categories-Named x branch now names order known s h)
        | inl e ↦
            elim (Result-cases (admin_create_category lower x input branch s.next_id now s.menu)) [
              | inr (z, g) ↦
                  let same : (create_categories lower x branch now (name ∷ names) order known
                        s).1.menu
                      ≡ s.menu =
                    ground arith in
                  subst (Named lower) (sym same) h
              | inl (made, g) ↦
                  let s1 = record s { menu = made.1; next_id = suc s.next_id } in
                  let next = assign known (normalized lower name) made.0 in
                  let same : (create_categories lower x branch now (name ∷ names) order known
                        s).1.menu
                      ≡ (create_categories lower x branch now names (order +ℤ pos 1) next
                          s1).1.menu =
                    ground arith in
                  subst (Named lower) (sym same) (
                    create_categories-Named x branch now names (order +ℤ pos 1) next s1 (
                      same_items lower s.menu made.1
                        (category_items x input branch s.next_id now s.menu made g) h))
            ]
      ]

  module _ (sku_of : ℕ → Text) where
    import_stations-menu :
        (l : Locale) (rows : List ImportRow) (s : Imported)
        → (import_stations lower sku_of l rows s).1.menu ≡ s.menu
    unfolding import_stations
    import_stations-menu l rows s = ground arith

    import_row-Named :
        (x : Context) (branch now : ℕ) (known : Dict Category) (r : ImportRow) (s : Imported)
        (st : Store)
        → Named lower s.menu
        → Named lower (import_row lower sku_of x branch now known r s st).1.menu
    unfolding import_row
    import_row-Named x branch now known r s st h =
        let after = (import_row lower sku_of x branch now known r s st).1.menu in
        let kept : after ≡ s.menu → Named lower after = λ e. subst (Named lower) (sym e) h in
        elim (Option-cases (lookup known (normalized lower r.category))) [
          | inl e ↦ kept (ground arith)
          | inr (c, e) ↦ elim (Result-cases (normalize_prep_station_id r.station)) [
            | inr (z, e1) ↦ kept (ground arith)
            | inl (station, e1) ↦
                elim (Option-cases (item_by_name_in_category lower s.menu c.id r.name)) [
                  | inl e2 ↦
                      let input = item_of_row lower branch c.id r station in
                      let made =
                        admin_create_item lower s.settings x input (sku_of s.next_id) s.next_id
                          (suc s.next_id) (suc (suc s.next_id)) now s.menu st in
                      let same : after ≡ menu_after s.menu made.0 = elim (Result-cases made.0) [
                        | inl (m, e3) ↦ ground arith
                        | inr (z, e3) ↦ ground arith
                      ] in
                      subst (Named lower) (sym same) (
                        create-Named lower s.settings x input (sku_of s.next_id) s.next_id
                          (suc s.next_id) (suc (suc s.next_id)) now s.menu st h)
                  | inr (i, e2) ↦ elim (Bool-cases (is_unchanged lower i r station)) [
                    | inl e3 ↦ kept (ground arith)
                    | inr e3 ↦
                        let patch = patch_of_row lower c.id r station in
                        let same : after
                            ≡ menu_after s.menu
                                (admin_update_item lower s.settings x i.id patch now s.menu) =
                          elim (Result-cases
                            (admin_update_item lower s.settings x i.id patch now s.menu)) [
                              | inl (m, e4) ↦ ground arith
                              | inr (z, e4) ↦ ground arith
                            ] in
                        subst (Named lower) (sym same) (
                          update-Named lower s.settings x patch c.id now r.name s.menu i e2 refl
                            refl h)
                  ]
                ]
          ]
        ]

    import_each-Named :
        (x : Context) (branch now : ℕ) (known : Dict Category) (rs : List ImportRow) (s : Imported)
        (st : Store)
        → Named lower s.menu
        → Named lower (import_each lower sku_of x branch now known rs s st).1.menu
    unfolding import_each
    import_each-Named x branch now known [] s st h = h
    import_each-Named x branch now known (r ∷ rs) s st h =
        let (done, s1, st1) = import_row lower sku_of x branch now known r s st in
        let first = import_row-Named x branch now known r s st h in
        elim (Result-cases (import_row lower sku_of x branch now known r s st).0) [
          | inr (z, e) ↦
              let same : (import_each lower sku_of x branch now known (r ∷ rs) s st).1.menu
                  ≡ s1.menu =
                ground arith in
              subst (Named lower) (sym same) first
          | inl (_, e) ↦
              let same : (import_each lower sku_of x branch now known (r ∷ rs) s st).1.menu
                  ≡ (import_each lower sku_of x branch now known rs s1 st1).1.menu =
                ground arith in
              subst (Named lower) (sym same) (import_each-Named x branch now known rs s1 st1 first)
        ]

    import_categories-Named :
        (x : Context) (r : TokenRecord) (now : ℕ) (s : Imported)
        → Named lower s.menu
        → Named lower (import_categories lower x r now s).1.menu
    unfolding import_categories
    import_categories-Named x r now s h =
        let rows = select (λ c. c.branch == r.branch) (list_categories s.menu) in
        create_categories-Named x r.branch now
          (unique_in_order lower [] (map (λ q. q.category) r.rows)) (greatest lower rows (pos 0))
          (by_name lower (select (λ c. c.is_active) rows) []) s h

    -- Wherever it stops, an import leaves the names apart.
    import_rows-Named :
        (l : Locale) (user : User) (r : TokenRecord) (now : ℕ) (s : Imported) (st : Store)
        → Named lower s.menu
        → Named lower (import_rows lower sku_of l user r now s st).1.menu
    unfolding import_rows
    import_rows-Named l user r now s st h =
        let x : Context = record { source = r.source; actor = some user.id; event = none } in
        let (known, s1) = import_categories lower x r now s in
        let (saved, s2) = import_stations lower sku_of l r.rows s1 in
        let after = (import_rows lower sku_of l user r now s st).1.menu in
        let first = import_categories-Named x r now s h in
        let second = subst (Named lower) (sym (import_stations-menu l r.rows s1)) first in
        elim (Result-cases (import_categories lower x r now s).0) [
          | inr (z, e) ↦
              let same : after ≡ s1.menu = ground arith in subst (Named lower) (sym same) first
          | inl (k, e) ↦ elim (Result-cases (import_stations lower sku_of l r.rows s1).0) [
            | inr (z, e1) ↦
                let same : after ≡ s2.menu = ground arith in subst (Named lower) (sym same) second
            | inl (_, e1) ↦
                let done = import_each lower sku_of x r.branch now k r.rows s2 st in
                let same : after ≡ done.1.menu = elim (Result-cases done.0) [
                  | inl (_, e2) ↦ ground arith
                  | inr (z, e2) ↦ ground arith
                ] in
                subst (Named lower) (sym same)
                  (import_each-Named x r.branch now k r.rows s2 st second)
          ]
        ]

    -- A confirmation that is refused, or that fails while it imports, leaves the menu as it was; one
    -- that goes through leaves a menu where no two live items of a category have the same name but for
    -- case and the space around it, where that was so before, with each item once and under its id.
    pub confirm_bulk_import-Named :
        (l : Locale) (user : User) (token branch now : ℕ) (source : Source)
        (tokens : Table TokenRecord) (s : Imported) (st : Store)
        → Named lower s.menu
        → let r = confirm_bulk_import lower sku_of l user token branch source now tokens s st in
          ((e : Error) × (r.0 ≡ err e) × (r.2.menu ≡ s.menu))
          ⊎ ((r.0 ≡ ok tt) × Named lower r.2.menu)
    unfolding confirm_bulk_import restored
    confirm_bulk_import-Named l user token branch now source tokens s st h =
        let out = confirm_bulk_import lower sku_of l user token branch source now tokens s st in
        elim (Option-cases (get tokens token)) [
          | inl e ↦ inl (token_invalid, ground arith, ground arith)
          | inr (r, e) ↦ elim (Bool-cases (ltb r.expires_at now)) [
            | inl t ↦ inl (token_invalid, ground arith, ground arith)
            | inr f ↦ elim (Bool-cases (owns user branch source r)) [
              | inr g ↦ inl (token_not_owned, ground arith, ground arith)
              | inl o ↦
                  let done = import_rows lower sku_of l user r now s st in
                  elim (Result-cases done.0) [
                    | inr (z, e1) ↦ inl (z, ground arith, ground arith)
                    | inl (_, e1) ↦
                        let same : out.2.menu ≡ done.1.menu = ground arith in
                        inr (
                          ground arith,
                          subst (Named lower) (sym same) (import_rows-Named l user r now s st h),
                        )
                  ]
            ]
          ]
        ]
