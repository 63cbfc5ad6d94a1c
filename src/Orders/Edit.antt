-- ===== src/Orders/Edit.antt =====
-- `editOrderBeforePaymentImpl` of backend/orders/service.ts.
use restaurant_pos.Base.{
  ℕ, Bool, false, not, ◌&&◌, ◌||◌, Option, none, some, List, [], ◌∷◌, ◌++◌, ◌==◌, every,
  if◌then◌else◌, some_of, select,
}
use restaurant_pos.Base.Int.{ℤ, pos, ltb_ℤ}
use restaurant_pos.Base.Text.{Text, trim}
use restaurant_pos.Base.Result.{
  Result, ok, err, and_then, check, forbidden, other_branch, prepared_items, order_delivered,
  order_item_not_found,
}
use restaurant_pos.Store.{M, pure, gets, lift, ◌>>=◌, ◌>>◌, AuditAction}
use restaurant_pos.Auth.Policy.{User, can, edit_order}
use restaurant_pos.Money.{gross_of}
use restaurant_pos.Billing.Access.{record_audit_event}
use restaurant_pos.Billing.Editing.Items.{remove_voided_item}
use restaurant_pos.Kds.Board.{Board, board_of, sync_order_into_kds}
use restaurant_pos.Menu.Types.{Menu}
use restaurant_pos.Settings.Normalize.{first_of, non_blank}
use restaurant_pos.Orders.Types.{Order, OrderItem, ChangeEntry, Change, is_completed, is_delivered}
use restaurant_pos.Orders.Update.{
  load_order, update_order, log_change, branch_matches, recalc_subtotal,
}
use restaurant_pos.Orders.Cancel.{check_bill, shows_prepared}
use restaurant_pos.Orders.Build.{
  OrderMenuItemInput, build_order_items_from_menu, assert_valid_quantity, normalize_modifiers,
}

-- An entry of `modifyItems`
pub record ModifyInput : Type 0 where
  pub item : ℕ
  pub quantity : Option ℤ
  pub note : Option Text
  pub modifiers : Option (List Text)

pub record EditInput : Type 0 where
  pub expected : ℕ
  pub add_items : List OrderMenuItemInput
  pub modify_items : List ModifyInput
  pub remove_items : List ℕ
  pub reason : Option Text
  pub approver : Option ℕ

abbrev pub lowers : OrderItem → ModifyInput → Bool
lowers i p =
    p.item == i.id && (elim p.quantity [ none ↦ false | some q ↦ ltb_ℤ q (pos i.quantity) ])

-- Whether the edit removes the item or lowers its quantity
unfoldable pub is_reduced : EditInput → OrderItem → Bool
is_reduced input i =
    some_of (λ id. id == i.id) input.remove_items || some_of (lowers i) input.modify_items

-- No item that is reduced was prepared.
unfoldable pub reduces_no_prepared : EditInput → Board → Order → Bool
unfolding is_reduced
reduces_no_prepared input b o =
    every
      (λ i. not (
        is_reduced input i
        && ((is_completed o.status || is_delivered o.status) || shows_prepared b o.id i)))
      o.items

abbrev entry : User → ℕ → Option ℕ → Option Text → Change → ChangeEntry
entry user now approver reason change = record {
  at = now;
  actor = user.id;
  approver = approver;
  change = change;
  reason = reason;
}

abbrev normalize_reason : Option Text → Option Text
normalize_reason none = none
normalize_reason (some t) = non_blank (trim t)

unfoldable pub add_each : User → ℕ → List OrderItem → Order → Order
add_each user now [] o = o
add_each user now (i ∷ is) o = add_each user now is (
    log_change (entry user now none none (Change.item_added i.id))
      (record o { items = o.items ++ (i ∷ []) }))

abbrev quantity_or : Option ℤ → ℕ → Result ℕ
quantity_or none q = ok q
quantity_or (some z) q = assert_valid_quantity z

abbrev modifiers_or : Option (List Text) → Option (List Text) → Option (List Text)
modifiers_or none old = old
modifiers_or (some ts) old = normalize_modifiers (some ts)

-- The item as the modification leaves it: its line total follows from its quantity.
unfoldable pub modify_item : ModifyInput → OrderItem → Result OrderItem
unfolding assert_valid_quantity normalize_modifiers gross_of
modify_item p i = and_then (quantity_or p.quantity i.quantity) λ q. ok (record i {
  quantity = q;
  note = first_of p.note i.note;
  modifiers = modifiers_or p.modifiers i.modifiers;
  line_total = gross_of q i.unit_price;
})

-- `find` returns the first item of the id, which the change is written to.
unfoldable pub modify_first : ModifyInput → List OrderItem → Result (List OrderItem)
unfolding modify_item
modify_first p [] = err order_item_not_found
modify_first p (i ∷ is) =
    let rest = modify_first p is in
    if i.id == p.item
    then and_then (modify_item p i) (λ j. ok (j ∷ is))
    else and_then rest (λ js. ok (i ∷ js))

abbrev pub with_modified : User → EditInput → ℕ → ModifyInput → List OrderItem → Order → Order
with_modified user input now p items o =
    log_change
      (entry user now input.approver (normalize_reason input.reason) (Change.item_modified p.item))
      (record o { items = items })

unfoldable pub modify_each : User → EditInput → ℕ → List ModifyInput → Order → Result Order
unfolding modify_first trim
modify_each user input now [] o = ok o
modify_each user input now (p ∷ ps) o =
    and_then (modify_first p o.items)
      λ items. modify_each user input now ps (with_modified user input now p items o)

-- The entries for the items that the filter drops
unfoldable pub log_removed : User → EditInput → ℕ → List OrderItem → Order → Order
unfolding trim
log_removed user input now [] o = o
log_removed user input now (i ∷ is) o =
    let logged =
      log_change
        (entry user now input.approver (normalize_reason input.reason) (Change.item_removed i.id))
        o in
    log_removed user input now is
      (if some_of (λ id. id == i.id) input.remove_items then logged else o)

unfoldable pub remove_each : User → EditInput → ℕ → Order → Order
unfolding log_removed
remove_each user input now o = record (log_removed user input now o.items o) {
  items = select (λ i. not (some_of (λ id. id == i.id) input.remove_items)) o.items;
}

-- The change of the draft, from the items that were built for it
unfoldable pub apply_edit : User → EditInput → List OrderItem → ℕ → Order → Result Order
unfolding add_each modify_each remove_each
apply_edit user input added now o =
    and_then (check (not (is_delivered o.status)) order_delivered) λ _.
      and_then (modify_each user input now input.modify_items (add_each user now added o)) λ d.
        let e = remove_each user input now d in ok (record e { subtotal = recalc_subtotal e.items })

unfoldable pub remove_ids_from_bill : Option ℕ → List ℕ → ℕ → M (Unit {0})
unfolding remove_voided_item
remove_ids_from_bill none ids now = pure tt
remove_ids_from_bill (some session) [] now = pure tt
remove_ids_from_bill (some session) (id ∷ ids) now = do
  remove_voided_item session id now
  remove_ids_from_bill (some session) ids now

unfoldable pub carry_out_edit : User → ℕ → EditInput → List OrderItem → ℕ → M Order
unfolding update_order apply_edit record_audit_event remove_ids_from_bill sync_order_into_kds
carry_out_edit user id input added now = do
  o ← update_order id input.expected (apply_edit user input added now) now
  record_audit_event AuditAction.order_edited user.id o.id 0 now
  remove_ids_from_bill o.session input.remove_items now
  sync_order_into_kds o now
  pure o

module _ (text_of_id : ℕ → Text) where
  unfoldable pub edit_order_before_payment : Menu → User → ℕ → EditInput → ℕ → M Order
  unfolding load_order check_bill reduces_no_prepared build_order_items_from_menu carry_out_edit
  edit_order_before_payment m user id input now = do
    lift (check (can user edit_order) forbidden)
    before ← load_order id
    lift (check (branch_matches user before.branch) other_branch)
    check_bill before
    unprepared ← gets (λ s. reduces_no_prepared input (board_of s) before)
    lift (check unprepared prepared_items)
    added ← lift (build_order_items_from_menu text_of_id user before.branch m input.add_items)
    carry_out_edit user id input added now
