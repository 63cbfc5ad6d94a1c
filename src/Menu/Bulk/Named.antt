-- ===== src/Menu/Bulk/Named.antt =====
-- Names that are apart in a menu where each item has one entry, after an item is created or updated as an
-- import does.
use restaurant_pos.Base.{
  ℕ, ◌≡◌, refl, sym, subst, inl, inr, false, none, some, [], ◌∷◌, ◌==◌, arith, Bool-cases,
}
use restaurant_pos.Base.Text.{Text}
use restaurant_pos.Base.Table.{Table, IsMap, get, put, Among-get, find-Among}
use restaurant_pos.Store.{Store}
use restaurant_pos.Settings.Types.{Settings}
use restaurant_pos.Menu.Types.{Context, Menu, MenuItem, ItemInput, ItemPatch}
use restaurant_pos.Menu.Repository.{item_by_id, put_item, item_by_name_in_category}
use restaurant_pos.Menu.Admin.{checked_name}
use restaurant_pos.Menu.Items.{admin_create_item, admin_update_item}
use restaurant_pos.Menu.Unique.{Unique}
use restaurant_pos.Menu.Keeps.{item_by_id-eq-some, same_place-Unique}
use restaurant_pos.Menu.Operations.{menu_after}
use restaurant_pos.Menu.Changes.{create_cases, create-Unique, update_cases}

get-put-none :
    {V : Type 0} (t : Table V) (j k : ℕ) (v : V)
    → get t j ≡ none
    → (k == j) ≡ false
    → get (put t k v) j ≡ none
get-put-none [] j k v g f = ground arith
get-put-none (e ∷ t) j k v g f = ground (arith, get-put-none t j k v)

put-IsMap : {V : Type 0} (t : Table V) (k : ℕ) (v : V) → IsMap t → IsMap (put t k v)
put-IsMap [] k v h = (refl, tt)
put-IsMap ((j, w) ∷ t) k v h = elim (Bool-cases (j == k)) [
  | inl e ↦ rw e h
  | inr f ↦ rw f (get-put-none t j k v h.0 (ground arith), put-IsMap t k v h.1)
]

module _ (lower : Text → Text) where
  -- The names are apart, and each item has one entry.
  pub record Named (m : Menu) : Type 0 where
    pub unique : Unique lower m
    pub map : IsMap m.items

  pub same_items : (m n : Menu) → m.items ≡ n.items → Named m → Named n
  same_items m n e h = record {
    unique = record { keyed = rw (sym e) h.unique.keyed; one = rw (sym e) h.unique.one };
    map = subst IsMap e h.map;
  }

  put_item-IsMap : (m : Menu) (i : MenuItem) → IsMap m.items → IsMap (put_item m i).items
  unfolding put_item
  put_item-IsMap m i h = put-IsMap m.items i.id i h

  pub create-Named :
      (settings : Settings) (x : Context) (input : ItemInput) (sku : Text) (id inv mov now : ℕ)
      (m : Menu) (s : Store)
      → Named m
      → Named (menu_after m (admin_create_item lower settings x input sku id inv mov now m s).0)
  create-Named settings x input sku id inv mov now m s h = record {
    unique = create-Unique lower settings x input sku id inv mov now m s h.unique;
    map = elim (create_cases lower settings x input sku id inv mov now m s) [
      | inl same ↦ subst (λ v. IsMap v.items) (sym same) h.map
      | inr (i, link, e, after) ↦ subst (λ v. IsMap v.items) (sym after) (put_item-IsMap m _ h.map)
    ];
  }

  -- The item that the row names is the one that the update finds under its id.
  found_again :
      (m : Menu) (category : ℕ) (name : Text) (i j : MenuItem)
      → Named m
      → item_by_name_in_category lower m category name ≡ some i
      → item_by_id m i.id ≡ some j
      → (i ≡ j) × (i.category ≡ category)
  unfolding item_by_name_in_category
  found_again m category name i j h e g =
      let (k, a, t) = find-Among _ m.items i e in
      let at = h.unique.keyed k i a in
      let here = Among-get m.items k i h.map a in
      let (there, l) = item_by_id-eq-some m i.id j g in (ground arith, ground arith)

  pub update-Named :
      (settings : Settings) (x : Context) (p : ItemPatch) (category now : ℕ) (name : Text)
      (m : Menu) (i : MenuItem)
      → item_by_name_in_category lower m category name ≡ some i
      → p.category ≡ some category
      → p.name ≡ none
      → Named m
      → Named (menu_after m (admin_update_item lower settings x i.id p now m))
  unfolding checked_name
  update-Named settings x p category now name m i e c n h =
      elim (update_cases lower settings x i.id p now m) [
        | inl same ↦ subst Named (sym same) h
        | inr (j, stored, next, g, named, at_id, at_category, at_name, after) ↦
            let (same, there) = found_again m category name i j h e g in
            let kept : stored ≡ none = ground arith in
            subst Named (sym after) (record {
              unique =
                  same_place-Unique lower m i.id j next h.unique g at_id (ground arith)
                    (ground arith);
              map = put_item-IsMap m next h.map;
            })
      ]
