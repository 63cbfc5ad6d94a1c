-- ===== src/Menu/Deleted.antt =====
-- What is left of a category that was deleted.
use restaurant_pos.Base.{
  ℕ, ◌≡◌, ◌≢◌, sym, ◌∙◌, ap, inl, inr, true, false, ◌&&◌, none, some, List, [], ◌∷◌, ◌==◌, ==_iff,
  All, arith, Bool-cases, Option-cases,
}
use restaurant_pos.Base.Table.{get, get-put_self, get-put_ne, All-select-get}
use restaurant_pos.Menu.Types.{Context, Category, Menu, MenuItem}
use restaurant_pos.Menu.Repository.{
  item_lives, item_by_id, put_item, put_category, category_by_id, list_items,
}
use restaurant_pos.Menu.Admin.{stamp_category, retire_item, retire_items, admin_delete_category}
use restaurant_pos.Menu.Keeps.{item_by_id-eq-some}

-- Each row of the menu stands under its id.
pub record Keyed (m : Menu) : Type 0 where
  pub items : (k : ℕ) (i : MenuItem) → get m.items k ≡ some i → i.id ≡ k
  pub categories : (k : ℕ) (c : Category) → get m.categories k ≡ some c → c.id ≡ k

module _ (x : Context) (now : ℕ) where
  retire_items-live :
      (is : List MenuItem) (m : Menu) (k : ℕ) (y : MenuItem)
      → get (retire_items x now is m).items k ≡ some y
      → item_lives y ≡ true
      → (get m.items k ≡ some y) × All (λ i. i.id ≢ k) is
  unfolding retire_items put_item
  retire_items-live [] m k y g l = (g, tt)
  retire_items-live (i ∷ is) m k y g l =
      let (h, a) = retire_items-live is (put_item m (retire_item x now i)) k y g l in
      elim (Bool-cases (k == i.id)) [
        | inl e ↦
            let same : k ≡ i.id = (==_iff k i.id).0 e in
            let dead = get-put_self m.items i.id (retire_item x now i) in absurd (ground arith)
        | inr f ↦
            let other : k ≢ i.id = ground arith in
            (
              sym (get-put_ne m.items k i.id (retire_item x now i) other) ∙ h,
              ((λ e. other (sym e)), a),
            )
      ]

  item_by_id-get :
      (m : Menu) (k : ℕ) (i : MenuItem)
      → get m.items k ≡ some i
      → item_lives i ≡ true
      → item_by_id m k ≡ some i
  unfolding item_by_id
  item_by_id-get m k i g l = ground arith

  hidden_category :
      (id : ℕ) (m : Menu) (c : Category)
      → Keyed m
      → category_by_id m id ≡ some c
      → category_by_id (admin_delete_category x id now m).1 id ≡ none
  unfolding admin_delete_category put_category category_by_id
  hidden_category id m c keyed e = elim (Option-cases (get m.categories id)) [
    | inl e1 ↦ ground arith
    | inr (d, e1) ↦
        let same : c ≡ d = ground arith in
        let at : c.id ≡ id = ap (λ z. z.id) same ∙ keyed.categories id d e1 in
        let dead : Category =
          stamp_category x now (record c { deleted_at = some now; is_active = false }) in
        let written = get-put_self (retire_items x now (list_items m id) m).categories c.id dead in
        ground (arith, written, at)
  ]

  hidden_items :
      (id : ℕ) (m : Menu) (c : Category) (k : ℕ) (i : MenuItem)
      → Keyed m
      → category_by_id m id ≡ some c
      → item_by_id (admin_delete_category x id now m).1 k ≡ some i
      → (item_by_id m k ≡ some i) × (i.category ≢ id)
  unfolding admin_delete_category put_category list_items
  hidden_items id m c k i keyed e h =
      let (g, l) = item_by_id-eq-some (admin_delete_category x id now m).1 k i h in
      let left : get (retire_items x now (list_items m id) m).items k ≡ some i = ground arith in
      let (was, apart) = retire_items-live (list_items m id) m k i left l in
      (
        item_by_id-get m k i was l,
        (λ at.
            All-select-get (λ z. item_lives z && z.category == id) (λ z. z.id ≢ k) m.items k i apart
              was (ground arith) (keyed.items k i was)),
      )

  -- After a category that was there is deleted, it is looked up no more, and an item that is still
  -- looked up was there before and is of another category.
  pub admin_delete_category-hides :
      (id : ℕ) (m : Menu) (c : Category)
      → Keyed m
      → category_by_id m id ≡ some c
      → (category_by_id (admin_delete_category x id now m).1 id ≡ none)
        × ((k : ℕ) (i : MenuItem)
            → item_by_id (admin_delete_category x id now m).1 k ≡ some i
            → (item_by_id m k ≡ some i) × (i.category ≢ id))
  admin_delete_category-hides id m c keyed e =
      (hidden_category id m c keyed e, λ k i. hidden_items id m c k i keyed e)
