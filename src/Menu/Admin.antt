-- ===== src/Menu/Admin.antt =====
-- The checks and the category operations of backend/menu/service.ts. An operation that throws has
-- written nothing, so it is a function from the menu to a result.
use restaurant_pos.Base.{
  ℕ, Bool, true, false, not, Option, none, some, List, [], ◌∷◌, ◌==◌, if◌then◌else◌, is_some,
}
use restaurant_pos.Base.Int.{pos}
use restaurant_pos.Base.Text.{Text, trim, is_blank_text}
use restaurant_pos.Base.Result.{
  Error, Result, ok, err, and_then, check, or_error, name_required, category_exists,
  category_not_found,
}
use restaurant_pos.Settings.Normalize.{given}
use restaurant_pos.Menu.Types.{Context, Category, CategoryInput, CategoryPatch, Menu, MenuItem}
use restaurant_pos.Menu.Repository.{
  category_by_id, category_by_name, list_items, put_category, put_item,
}

-- `assertName`
unfoldable pub assert_name : Text → Result Text
unfolding trim
assert_name name =
    let normalized = trim name in
    if is_blank_text normalized then err name_required else ok normalized

-- `input.name` is given and not the empty text
abbrev pub is_named : Option Text → Bool
is_named none = false
is_named (some t) = not (is_blank_text t)

-- `duplicate && duplicate.id !== id` does not hold.
abbrev pub is_own : Option ℕ → ℕ → Bool
is_own none id = true
is_own (some other) id = other == id

abbrev pub category_id : Option Category → Option ℕ
category_id none = none
category_id (some c) = some c.id

abbrev pub stamp_category : Context → ℕ → Category → Category
stamp_category x now c = record c {
  updated_at = now;
  updated_source = x.source;
  updated_by = x.actor;
  event = x.event;
}

abbrev pub stamp_item : Context → ℕ → MenuItem → MenuItem
stamp_item x now i = record i {
  updated_at = now;
  updated_source = x.source;
  updated_by = x.actor;
  event = x.event;
}

-- `{ ...current, ...patch }`; the name is the one that `assertName` returned.
unfoldable pub patch_category : CategoryPatch → Option Text → Category → Category
patch_category p name c = record c {
  branch = given p.branch c.branch;
  name = given name c.name;
  sort_order = given p.sort_order c.sort_order;
  is_active = given p.is_active c.is_active;
}

abbrev pub retire_item : Context → ℕ → MenuItem → MenuItem
retire_item x now i =
    stamp_item x now (record i { deleted_at = some now; is_active = false; is_available = false })

-- The loop of `adminDeleteCategory` over the children
unfoldable pub retire_items : Context → ℕ → List MenuItem → Menu → Menu
unfolding put_item
retire_items x now [] m = m
retire_items x now (i ∷ is) m = retire_items x now is (put_item m (retire_item x now i))

-- The name that an update stores; an empty text is not checked and is stored as it is.
unfoldable pub checked_name : (Text → Option ℕ) → Error → ℕ → Option Text → Result (Option Text)
unfolding assert_name
checked_name duplicate exists id input =
    if is_named input
    then and_then (assert_name (given input []))
        (λ name. and_then (check (is_own (duplicate name) id) exists) λ _. ok (some name))
    else ok input

module _ (lower : Text → Text) where
  unfoldable pub admin_create_category :
      Context → CategoryInput → ℕ → ℕ → ℕ → Menu → Result (Category × Menu)
  unfolding assert_name category_by_name put_category
  admin_create_category x input current_branch new_id now m =
      and_then (assert_name input.name) λ name.
        let branch = given input.branch current_branch in
        and_then (check (not (is_some (category_by_name lower m name branch))) category_exists) λ _.
          let c : Category = record {
            id = new_id;
            branch = branch;
            name = name;
            sort_order = given input.sort_order (pos 0);
            is_active = given input.is_active true;
            created_at = now;
            updated_at = now;
            updated_source = x.source;
            updated_by = x.actor;
            event = x.event;
            deleted_at = none;
          } in
          ok (c, put_category m c)

  unfoldable pub admin_update_category :
      Context → ℕ → CategoryPatch → ℕ → Menu → Result (Category × Menu)
  unfolding category_by_id checked_name category_by_name patch_category put_category
  admin_update_category x id input now m =
      and_then (or_error (category_by_id m id) category_not_found) λ c.
        and_then
          (checked_name (λ name. category_id (category_by_name lower m name c.branch))
            category_exists id input.name)
          λ name.
            let next = stamp_category x now (patch_category input name c) in
            ok (next, put_category m next)

-- Whether there was such a category, and the menu afterwards
unfoldable pub admin_delete_category : Context → ℕ → ℕ → Menu → Bool × Menu
unfolding category_by_id list_items retire_items put_category
admin_delete_category x id now m = elim (category_by_id m id) [
  | none ↦ (false, m)
  | some c ↦ (
    true,
    put_category (retire_items x now (list_items m id) m)
        (stamp_category x now (record c { deleted_at = some now; is_active = false })),
  )
]
