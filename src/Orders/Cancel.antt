-- ===== src/Orders/Cancel.antt =====
-- `cancelOrderImpl` and `voidOrderItemImpl` of backend/orders/service.ts.
use restaurant_pos.Base.{
  ℕ, Bool, false, not, ◌||◌, Option, none, some, List, [], ◌∷◌, ◌==◌, some_of, select, find,
  if◌then◌else◌,
}
use restaurant_pos.Base.Text.{Text, trim}
use restaurant_pos.Base.Table.{get}
use restaurant_pos.Base.Result.{
  Result, ok, and_then, check, or_error, forbidden, other_branch, reason_required, prepared_items,
  already_cancelled, order_item_not_found,
}
use restaurant_pos.Store.{M, pure, gets, lift, ◌>>=◌, ◌>>◌, AuditAction}
use restaurant_pos.Auth.Policy.{User, can, edit_order, void_prepared_items}
use restaurant_pos.Billing.Update.{assert_bill_editable}
use restaurant_pos.Billing.Access.{record_audit_event}
use restaurant_pos.Billing.Payments.Reverse.{is_blank}
use restaurant_pos.Billing.Editing.Items.{remove_voided_item}
use restaurant_pos.Kds.Types.{is_prepared}
use restaurant_pos.Kds.Board.{Board, get_state, board_of, sync_order_into_kds}
use restaurant_pos.Tables.Access.{require_open_session}
use restaurant_pos.Orders.Types.{
  Order, OrderItem, OrderStatus, cancelled, Change, is_completed, is_delivered, is_cancelled,
}
use restaurant_pos.Orders.Update.{
  load_order, update_order, log_change, branch_matches, recalc_subtotal,
}

-- `assertBillEditable` on the bill of the order's session
unfoldable pub check_bill : Order → M (Unit {0})
unfolding assert_bill_editable
check_bill o = elim o.session [
  | none ↦ pure tt
  | some x ↦ (λ s. lift (assert_bill_editable (get s.bills x)) s)
]

abbrev pub shows_prepared : Board → ℕ → OrderItem → Bool
shows_prepared b order i = elim (get_state b order i.id) [
  | none ↦ false
  | some x ↦ is_prepared x.progress
]

-- Whether the order or one of its items was prepared
unfoldable pub was_prepared : Board → Order → Bool
was_prepared b o =
    (is_completed o.status || is_delivered o.status) || some_of (shows_prepared b o.id) o.items

-- The stored order keeps its items and its subtotal.
unfoldable pub mark_cancelled : User → Option ℕ → Text → ℕ → Order → Result Order
mark_cancelled user approver reason now o =
    and_then (check (not (is_cancelled o.status)) already_cancelled) λ _.
      ok
        (record (log_change
          (record {
            at = now;
            actor = user.id;
            approver = approver;
            change = Change.order_cancelled o.status;
            reason = some reason;
          })
          o) { status = cancelled })

-- `removeVoidedBillItem` for each item, in order
unfoldable pub remove_from_bill : Option ℕ → List OrderItem → ℕ → M (Unit {0})
unfolding remove_voided_item
remove_from_bill none items now = pure tt
remove_from_bill (some session) [] now = pure tt
remove_from_bill (some session) (i ∷ is) now = do
  remove_voided_item session i.id now
  remove_from_bill (some session) is now

-- The change itself, and what follows from it on the bill and the board
unfoldable pub carry_out_cancel : User → ℕ → ℕ → Option ℕ → Text → ℕ → M Order
unfolding update_order mark_cancelled record_audit_event remove_from_bill sync_order_into_kds
carry_out_cancel user id expected approver reason now = do
  o ← update_order id expected (mark_cancelled user approver reason now) now
  record_audit_event AuditAction.order_cancelled user.id o.id 0 now
  remove_from_bill o.session o.items now
  sync_order_into_kds o now
  pure o

unfoldable pub cancel_order : User → ℕ → ℕ → Text → Option ℕ → ℕ → M Order
unfolding load_order check_bill was_prepared carry_out_cancel
cancel_order user id expected text approver now = do
  lift (check (can user edit_order) forbidden)
  let reason = trim text
  lift (check (not (is_blank reason)) reason_required)
  before ← load_order id
  lift (check (branch_matches user before.branch) other_branch)
  check_bill before
  prepared ← gets (λ s. was_prepared (board_of s) before)
  lift (check (not prepared || can user void_prepared_items) prepared_items)
  carry_out_cancel user id expected (if prepared then some user.id else approver) reason now

abbrev without_item : ℕ → List OrderItem → List OrderItem
without_item item is = select (λ i. not (i.id == item)) is

abbrev status_of_rest : List OrderItem → OrderStatus → OrderStatus
status_of_rest [] x = cancelled
status_of_rest (_ ∷ _) x = x

-- The item goes; an order without items is cancelled.
unfoldable pub drop_item : User → ℕ → Text → ℕ → Order → Result Order
drop_item user item reason now o =
    and_then (check (not (is_cancelled o.status)) already_cancelled) λ _.
      and_then (or_error (find (λ i. i.id == item) o.items) order_item_not_found) λ _.
        let rest = without_item item o.items in
        ok
          (record (log_change
            (record {
              at = now;
              actor = user.id;
              approver = some user.id;
              change = Change.item_removed item;
              reason = some reason;
            })
            o) {
              items = rest;
              subtotal = recalc_subtotal rest;
              status = status_of_rest rest o.status;
            })

-- A dine-in order needs an open session and a bill that may change.
unfoldable pub check_session : Order → M (Unit {0})
unfolding require_open_session assert_bill_editable
check_session o = elim o.session [
  | none ↦ pure tt
  | some x ↦ do require_open_session x; (λ s. lift (assert_bill_editable (get s.bills x)) s)
]

abbrev pub remove_one : Option ℕ → ℕ → ℕ → M (Unit {0})
remove_one none item now = pure tt
remove_one (some session) item now = remove_voided_item session item now

unfoldable pub carry_out_void : User → ℕ → ℕ → ℕ → Text → ℕ → M Order
unfolding update_order drop_item remove_voided_item record_audit_event sync_order_into_kds
carry_out_void user id item expected reason now = do
  o ← update_order id expected (drop_item user item reason now) now
  remove_one o.session item now
  record_audit_event AuditAction.item_removed user.id o.id 0 now
  sync_order_into_kds o now
  pure o

unfoldable pub void_order_item : User → ℕ → ℕ → ℕ → Text → ℕ → M Order
unfolding load_order check_session carry_out_void
void_order_item user id item expected text now = do
  lift (check (can user void_prepared_items) forbidden)
  let reason = trim text
  lift (check (not (is_blank reason)) reason_required)
  before ← load_order id
  lift (check (branch_matches user before.branch) other_branch)
  check_session before
  carry_out_void user id item expected reason now
