-- ===== src/Orders/Edited.antt =====
-- When an order may be edited, and what may no longer be ordered.
use restaurant_pos.Base.{
  All, some_of, ◌==◌, ℕ, ◌+◌, ◌≡◌, ◌≢◌, sym, ◌∙◌, ap, subst, inl, inr, true, false, some, List,
  arith, Bool-cases, Option-cases,
}
use restaurant_pos.Base.Text.{Text}
use restaurant_pos.Base.Table.{get}
use restaurant_pos.Base.Result.{Result-cases, ok}
use restaurant_pos.Store.{Store, AuditAction}
use restaurant_pos.Billing.Access.{record_audit_event}
use restaurant_pos.Auth.Policy.{User, can, edit_order}
use restaurant_pos.Billing.Types.{Bill}
use restaurant_pos.Billing.Update.{is_editable, assert_bill_editable}
use restaurant_pos.Kds.Board.{board_of, sync_order_into_kds}
use restaurant_pos.Menu.Types.{Context, Category, Menu, MenuItem}
use restaurant_pos.Menu.Repository.{category_by_id, item_by_id}
use restaurant_pos.Menu.Admin.{admin_delete_category}
use restaurant_pos.Menu.Deleted.{Keyed, admin_delete_category-hides}
use restaurant_pos.Orders.Types.{Order, OrderItem, is_delivered}
use restaurant_pos.Orders.Update.{update_order, load_order, branch_matches}
use restaurant_pos.Orders.Cancel.{check_bill}
use restaurant_pos.Orders.Laws.{Changed, update_order-eq-ok}
use restaurant_pos.Orders.Build.{
  OrderMenuItemInput, build_order_item_from_menu, build_order_items_from_menu,
}
use restaurant_pos.Orders.Built.{build_order_item-Built}
use restaurant_pos.Orders.Stored.{carry_out_edit-stored}
use restaurant_pos.Orders.Spared.{prepared, holds, apply_edit-spares, apply_edit-removes}
use restaurant_pos.Orders.Edit.{
  EditInput, edit_order_before_payment, carry_out_edit, apply_edit, reduces_no_prepared,
  remove_ids_from_bill,
}

-- Once a category is deleted, no order item can be built of an item that stood in it, whatever the
-- user may override, where the rows of the menu stand under their ids.
pub deleted_category_unorderable :
    (x : Context) (now id : ℕ) (m : Menu) (c : Category) (text_of_id : ℕ → Text) (user : User)
    (branch : ℕ) (input : OrderMenuItemInput) (i : MenuItem) (y : OrderItem)
    → Keyed m
    → category_by_id m id ≡ some c
    → item_by_id m input.menu_item ≡ some i
    → i.category ≡ id
    → build_order_item_from_menu text_of_id user branch (admin_delete_category x id now m).1 input
      ≢ ok y
deleted_category_unorderable x now id m c text_of_id user branch input i y keyed e found at h =
    let b =
      build_order_item-Built text_of_id user branch (admin_delete_category x id now m).1 input y
        h in
    let (was, apart) =
      (admin_delete_category-hides x now id m c keyed e).1 input.menu_item b.row b.found in
    let same : some i ≡ some b.row = sym found ∙ was in
    let row : b.row ≡ i = ground arith in apart (ap (λ z. z.category) row ∙ at)

-- How an edit went through.
record Edited (s : Store) (text_of_id : ℕ → Text) (m : Menu) (user : User) (id : ℕ)
    (input : EditInput) (now : ℕ) (y : Order) : Type 0 where
  before : Order
  added : List OrderItem
  found : get s.orders id ≡ some before
  matches : branch_matches user before.branch ≡ true
  bill : (check_bill before s).0 ≡ ok tt
  unprepared : reduces_no_prepared input (board_of s) before ≡ true
  built : build_order_items_from_menu text_of_id user before.branch m input.add_items ≡ ok added
  change : Changed s id input.expected now (apply_edit user input added now) y
  stored : get (edit_order_before_payment text_of_id m user id input now s).1.orders id ≡ some y

check_bill-store : (o : Order) (s : Store) → (check_bill o s).1 ≡ s
unfolding check_bill
check_bill-store o s = elim (Option-cases o.session) [
  | inl e ↦ ground arith
  | inr (x, e) ↦ ground arith
]

carry_out_edit-Changed :
    (user : User) (id : ℕ) (input : EditInput) (added : List OrderItem) (now : ℕ) (s : Store)
    (y : Order)
    → (carry_out_edit user id input added now s).0 ≡ ok y
    → Changed s id input.expected now (apply_edit user input added now) y
unfolding carry_out_edit sync_order_into_kds record_audit_event
carry_out_edit-Changed user id input added now s y h =
    elim (Result-cases (update_order id input.expected (apply_edit user input added now) now s).0) [
      | inr (z, f) ↦ ground arith
      | inl (o, g) ↦
          let after = (update_order id input.expected (apply_edit user input added now) now s).1 in
          let audited = (record_audit_event AuditAction.order_edited user.id o.id 0 now after).1 in
          elim (Result-cases (remove_ids_from_bill o.session input.remove_items now audited).0) [
            | inr (z, f) ↦ ground arith
            | inl (_, f) ↦
                let same : o ≡ y = ground arith in
                update_order-eq-ok id input.expected now _ s y (g ∙ ap ok same)
          ]
    ]

edit_order-Edited :
    (text_of_id : ℕ → Text) (m : Menu) (user : User) (id : ℕ) (input : EditInput) (now : ℕ)
    (s : Store) (y : Order)
    → (edit_order_before_payment text_of_id m user id input now s).0 ≡ ok y
    → Edited s text_of_id m user id input now y
unfolding edit_order_before_payment load_order
edit_order-Edited text_of_id m user id input now s y h = elim (Bool-cases (can user edit_order)) [
  | inr f ↦ ground arith
  | inl a ↦ elim (Option-cases (get s.orders id)) [
    | inl e ↦ ground arith
    | inr (o, e) ↦ elim (Bool-cases (branch_matches user o.branch)) [
      | inr f ↦ ground arith
      | inl b ↦
          let kept = check_bill-store o s in
          elim (Result-cases (check_bill o s).0) [
            | inr (z, f) ↦ ground arith
            | inl (u, c) ↦ elim (Bool-cases (reduces_no_prepared input (board_of s) o)) [
              | inr f ↦ ground arith
              | inl d ↦
                  elim (Result-cases
                    (build_order_items_from_menu text_of_id user o.branch m input.add_items)) [
                      | inr (z, f) ↦ ground arith
                      | inl (added, g) ↦ record {
                        before = o;
                        added = added;
                        found = e;
                        matches = b;
                        bill = c;
                        unprepared = d;
                        built = g;
                        change = carry_out_edit-Changed user id input added now s y (ground arith);
                        stored =
                            let left =
                              carry_out_edit-stored user id input added now s y (ground arith) in
                            ground arith;
                      }
                    ]
            ]
          ]
    ]
  ]
]

not_delivered :
    (user : User) (input : EditInput) (added : List OrderItem) (now : ℕ) (o d : Order)
    → apply_edit user input added now o ≡ ok d
    → is_delivered o.status ≡ false
unfolding apply_edit
not_delivered user input added now o d h = ground arith

-- An edit that goes through was made on the version that the caller saw, on an order that was not
-- delivered, whose bill, if its session has one, may still change. The order that it gives back is
-- stored: every item that was prepared before is in it, in at least its quantity, and no item that was
-- to be removed is.
pub edit_order_guarded :
    (text_of_id : ℕ → Text) (m : Menu) (user : User) (id : ℕ) (input : EditInput) (now : ℕ)
    (s : Store) (y : Order)
    → (edit_order_before_payment text_of_id m user id input now s).0 ≡ ok y
    → (x : Order) × (get s.orders id ≡ some x)
      × (x.version ≡ input.expected)
      × (y.version ≡ input.expected + 1)
      × (is_delivered x.status ≡ false)
      × (get (edit_order_before_payment text_of_id m user id input now s).1.orders id ≡ some y)
      × All (λ i. prepared (board_of s) x i ≡ true → holds i y.items ≡ true) x.items
      × All (λ j. some_of (λ k. k == j.id) input.remove_items ≡ false) y.items
      × ((session : ℕ) (b : Bill)
          → x.session ≡ some session
          → get s.bills session ≡ some b
          → is_editable b ≡ true)
unfolding check_bill assert_bill_editable
edit_order_guarded text_of_id m user id input now s y h =
    let k = edit_order-Edited text_of_id m user id input now s y h in
    let c = k.change in
    let same : k.before ≡ c.was = ground (arith, k.found, c.found) in
    let items : c.draft.items ≡ y.items = ap (λ (o : Order). o.items) c.gives in
    let unprepared =
      subst (λ o. reduces_no_prepared input (board_of s) o ≡ true) same k.unprepared in
    (
      c.was,
      c.found,
      c.version,
      ap (λ (o : Order). o.version) (sym c.gives) ∙ ap (λ v. v + 1) c.version,
      not_delivered user input k.added now c.was c.draft c.drafted,
      k.stored,
      subst (λ z. All (λ i. prepared (board_of s) c.was i ≡ true → holds i z ≡ true) c.was.items)
          items
          (apply_edit-spares user input k.added now (board_of s) c.was c.draft unprepared
            c.drafted),
      subst (All (λ (j : OrderItem). some_of (λ n. n == j.id) input.remove_items ≡ false)) items
          (apply_edit-removes user input k.added now c.was c.draft c.drafted),
      (λ session b at_session found.
          let at_before : k.before.session ≡ some session =
            ap (λ (o : Order). o.session) same ∙ at_session in
          ground (arith, k.bill, at_before, found)),
    )
