-- ===== src/Menu/Unique.antt =====
-- Names on the menu: which operations keep the live items of a category apart by their names.
use restaurant_pos.Base.{ℕ, ◌≡◌, sym, ◌∙◌, ap, inl, inr, true, none, some, arith}
use restaurant_pos.Base.Text.{Text, same_text, same_text_refl, same_text-eq}
use restaurant_pos.Base.Table.{Among, put-Among, find-none-Among, find-Among}
use restaurant_pos.Menu.Types.{Menu, MenuItem}
use restaurant_pos.Menu.Repository.{
  item_lives, names_item, name_key, put_item, item_by_name_in_category,
}

module _ (lower : Text → Text) where
  -- Two live items with the same name in the same category are one, and an item stands under its id.
  pub record Unique (m : Menu) : Type 0 where
    pub keyed : (k : ℕ) (i : MenuItem) → Among k i m.items → i.id ≡ k
    pub one :
        (j k : ℕ) (x y : MenuItem)
        → Among j x m.items
        → Among k y m.items
        → item_lives x ≡ true
        → item_lives y ≡ true
        → x.category ≡ y.category
        → name_key lower x.name ≡ name_key lower y.name
        → j ≡ k

  -- No live entry under another key has the name of the item that is put.
  unfoldable pub Free : Menu → MenuItem → Type 0
  Free m i =
      (k : ℕ) (x : MenuItem)
      → Among k x m.items
      → item_lives x ≡ true
      → x.category ≡ i.category
      → name_key lower x.name ≡ name_key lower i.name
      → i.id ≡ k

  pub put_item-Unique :
      (m : Menu) (i : MenuItem)
      → Unique m
      → (item_lives i ≡ true → Free m i)
      → Unique (put_item m i)
  unfolding Free put_item
  put_item-Unique m i u f = record {
    keyed = λ k x h. elim (put-Among m.items i.id k i x h) [
      | inl (e, g) ↦ ap (λ z. z.id) (sym g) ∙ e
      | inr g ↦ u.keyed k x g
    ];
    one = λ j k x y hx hy lx ly c n. elim (put-Among m.items i.id j i x hx) [
      | inl (e, g) ↦ elim (put-Among m.items i.id k i y hy) [
        | inl (e', g') ↦ sym e ∙ e'
        | inr g' ↦ sym e ∙ f (ground arith) k y g' ly (ground arith) (ground arith)
      ]
      | inr g ↦ elim (put-Among m.items i.id k i y hy) [
        | inl (e', g') ↦ sym (f (ground arith) j x g lx (ground arith) (ground arith)) ∙ e'
        | inr g' ↦ u.one j k x y g g' lx ly c n
      ]
    ];
  }

  -- A live item whose test on a row is passed, as the lookup by name has it
  named :
      (category : ℕ) (name : Text) (x : MenuItem)
      → item_lives x ≡ true
      → x.category ≡ category
      → name_key lower x.name ≡ name_key lower name
      → names_item lower category name x ≡ true
  named category name x l c n =
      let same : same_text (name_key lower x.name) (name_key lower name) ≡ true =
        rw n (same_text_refl (name_key lower name)) in
      ground arith

  pub Free-none :
      (m : Menu) (i : MenuItem)
      → item_by_name_in_category lower m i.category i.name ≡ none
      → Free m i
  unfolding Free item_by_name_in_category
  Free-none m i h k x a l c n =
      let yes = named i.category i.name x l c n in
      let no = find-none-Among (names_item lower i.category i.name) m.items k x h a in ground arith

  pub Free-own :
      (m : Menu) (i d : MenuItem)
      → Unique m
      → item_by_name_in_category lower m i.category i.name ≡ some d
      → d.id ≡ i.id
      → Free m i
  unfolding Free item_by_name_in_category
  Free-own m i d u h e k x a l c n =
      let (j, b, t) = find-Among (names_item lower i.category i.name) m.items d h in
      let same : name_key lower d.name ≡ name_key lower i.name =
        same_text-eq (name_key lower d.name) (name_key lower i.name) (ground arith) in
      let live : item_lives d ≡ true = ground arith in
      let there_too : d.category ≡ x.category = ground arith in
      sym e ∙ (u.keyed j d b ∙ u.one j k d x b a live l there_too (same ∙ sym n))
