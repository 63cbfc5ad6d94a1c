-- ===== src/Menu/Keeps.antt =====
-- Each operation of the menu on the names of its items.
use restaurant_pos.Base.{
  ℕ, ◌≡◌, sym, ◌∙◌, ap, inl, inr, true, false, ◌&&◌, not, Option, none, some, [], arith, Bool-cases,
  Option-cases,
}
use restaurant_pos.Base.Text.{Text}
use restaurant_pos.Base.Table.{get, get-Among}
use restaurant_pos.Base.Result.{Error, Result-cases, ok}
use restaurant_pos.Settings.Types.{Settings}
use restaurant_pos.Settings.Normalize.{given}
use restaurant_pos.Menu.Types.{Context, Menu, MenuItem, ItemInput}
use restaurant_pos.Menu.Price.{assert_valid_price}
use restaurant_pos.Menu.Repository.{
  name_key, item_lives, item_by_id, put_item, item_by_name_in_category, category_by_id,
}
use restaurant_pos.Menu.Admin.{assert_name, checked_name, is_named, is_own}
use restaurant_pos.Menu.Items.{
  new_item, is_cloud, touches_inventory, normalize_valid_station, optional_price, item_id,
}
use restaurant_pos.Menu.Unique.{Unique, Free, put_item-Unique, Free-none, Free-own}

-- A row of an item that is looked up by its id
pub item_by_id-eq-some :
    (m : Menu) (id : ℕ) (i : MenuItem)
    → item_by_id m id ≡ some i
    → (get m.items id ≡ some i) × (item_lives i ≡ true)
unfolding item_by_id
item_by_id-eq-some m id i h = elim (Option-cases (get m.items id)) [
  | inl e ↦ ground arith
  | inr (x, e) ↦ elim (Bool-cases (item_lives x)) [
    | inl t ↦ (ground arith, ground arith)
    | inr f ↦ ground arith
  ]
]

-- What a checked name says of the name that is stored
pub checked_name-eq-ok :
    (duplicate : Text → Option ℕ) (exists : Error) (id : ℕ) (input name : Option Text)
    → is_named input ≡ true
    → checked_name duplicate exists id input ≡ ok name
    → (t : Text) × (name ≡ some t) × (is_own (duplicate t) id ≡ true)
unfolding checked_name
checked_name-eq-ok duplicate exists id input name n h =
    elim (Result-cases (assert_name (given input []))) [
      | inr (z, e) ↦ ground arith
      | inl (t, e) ↦ elim (Bool-cases (is_own (duplicate t) id)) [
        | inr f ↦ ground arith
        | inl a ↦ (t, ground arith, a)
      ]
    ]

module _ (lower : Text → Text) where
  new_item-free :
      (settings : Settings) (x : Context) (input : ItemInput) (id now : ℕ) (m : Menu) (i : MenuItem)
      → new_item lower settings x input id now m ≡ ok i
      → item_by_name_in_category lower m i.category i.name ≡ none
  unfolding new_item
  new_item-free settings x input id now m i h =
      elim (Bool-cases (not (is_cloud x.source && touches_inventory input))) [
        | inr f ↦ ground arith
        | inl a ↦ elim (Option-cases (category_by_id m input.category)) [
          | inl e ↦ ground arith
          | inr (c, e) ↦ elim (Result-cases (assert_name input.name)) [
            | inr (z, e1) ↦ ground arith
            | inl (name, e1) ↦ elim (Result-cases (assert_valid_price input.price)) [
              | inr (z, e2) ↦ ground arith
              | inl (price, e2) ↦
                  elim (Result-cases (normalize_valid_station settings input.prep_station)) [
                    | inr (z, e3) ↦ ground arith
                    | inl (station, e3) ↦ elim (Result-cases (optional_price input.tax_rate)) [
                      | inr (z, e4) ↦ ground arith
                      | inl (rate, e4) ↦
                          elim (Option-cases
                            (item_by_name_in_category lower m input.category name)) [
                              | inr (d, e5) ↦ ground arith
                              | inl e5 ↦ ground arith
                            ]
                    ]
                  ]
            ]
          ]
        ]
      ]

  pub new_item-Unique :
      (settings : Settings) (x : Context) (input : ItemInput) (id now : ℕ) (m : Menu) (i : MenuItem)
      (link : Option ℕ)
      → Unique lower m
      → new_item lower settings x input id now m ≡ ok i
      → Unique lower (put_item m (record i { inventory_item = link }))
  new_item-Unique settings x input id now m i link u h =
      put_item-Unique lower m (record i { inventory_item = link }) u
        (λ _.
          Free-none lower m (record i { inventory_item = link })
            (new_item-free settings x input id now m i h))

  -- A row that keeps the name and the category of the live row under the same id
  pub same_place-Unique :
      (m : Menu) (id : ℕ) (i next : MenuItem)
      → Unique lower m
      → item_by_id m id ≡ some i
      → next.id ≡ i.id
      → next.category ≡ i.category
      → next.name ≡ i.name
      → Unique lower (put_item m next)
  unfolding Free
  same_place-Unique m id i next u h e c n =
      let (g, l) = item_by_id-eq-some m id i h in
      let a = get-Among m.items id i g in
      put_item-Unique lower m next u (λ _ k y b ly cy ny.
        e
        ∙ (u.keyed id i a
            ∙ u.one id k i y a b l ly (sym (cy ∙ c)) (sym (ny ∙ ap (name_key lower) n))))

  -- A row that is deleted
  pub retired-Unique :
      (m : Menu) (next : MenuItem)
      → Unique lower m
      → item_lives next ≡ false
      → Unique lower (put_item m next)
  retired-Unique m next u d = put_item-Unique lower m next u (λ l. absurd (ground arith))

  pub named-Unique :
      (m : Menu) (id : ℕ) (i next : MenuItem)
      → Unique lower m
      → item_by_id m id ≡ some i
      → next.id ≡ i.id
      → is_own (item_id (item_by_name_in_category lower m next.category next.name)) id ≡ true
      → Unique lower (put_item m next)
  named-Unique m id i next u h e own =
      let (g, l) = item_by_id-eq-some m id i h in
      let at_id = u.keyed id i (get-Among m.items id i g) in
      put_item-Unique lower m next u (λ _.
        elim (Option-cases (item_by_name_in_category lower m next.category next.name)) [
          | inl none_there ↦ Free-none lower m next none_there
          | inr (d, found) ↦
              let same : d.id ≡ next.id = ground (arith, at_id) in
              Free-own lower m next d u found same
        ])
