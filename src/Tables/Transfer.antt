-- ===== src/Tables/Transfer.antt =====
-- `transferTableSessionImpl` of backend/tables/service.ts: the orders and the unpaid bill of a session
-- go to another table.
use restaurant_pos.Base.{
  ℕ, ◌+◌, Bool, true, false, not, ◌&&◌, ◌||◌, Option, none, some, List, [], ◌∷◌, ◌++◌, ◌==◌, leb,
  select, if◌then◌else◌, map,
}
use restaurant_pos.Base.Table.{get, values}
use restaurant_pos.Base.Result.{
  ok, check, or_error, forbidden, same_table, destination_inactive, destination_occupied,
}
use restaurant_pos.Store.{Store, M, pure, gets, lift, ◌>>=◌, ◌>>◌, AuditAction}
use restaurant_pos.Auth.Policy.{User, can, create_order}
use restaurant_pos.Billing.Types.{TableOrderItem}
use restaurant_pos.Billing.Update.{assert_bill_editable}
use restaurant_pos.Billing.Access.{orders_of, record_audit_event}
use restaurant_pos.Billing.Editing.Move.{transfer_unpaid_bill}
use restaurant_pos.Kds.Board.{sync_order_into_kds}
use restaurant_pos.Orders.Types.{Order, OrderItem, Change, is_cancelled}
use restaurant_pos.Orders.Update.{update_order, log_change, branch_matches}
use restaurant_pos.Tables.Types.{DiningTable, TableSession, is_active_table}
use restaurant_pos.Tables.Access.{require_open_session}
use restaurant_pos.Tables.Sessions.{open_sessions, new_session, closed_session, save_session}

-- The first of the sessions in the order of their opening
abbrev pub earliest : List TableSession → Option TableSession
earliest [] = none
earliest (x ∷ xs) = elim (earliest xs) [
  | none ↦ some x
  | some y ↦ if leb x.opened_at y.opened_at then some x else some y
]

abbrev pub active_in : Option DiningTable → Bool
active_in none = false
active_in (some t) = is_active_table t.status

abbrev pub target_id : Option TableSession → ℕ → ℕ
target_id none fresh = fresh
target_id (some x) fresh = x.id

-- The open session of the destination with the guests of both, or a new one
unfoldable pub destination_session :
    User → TableSession → DiningTable → Option TableSession → ℕ → ℕ → TableSession
unfolding new_session
destination_session user source t none fresh now =
    new_session fresh source.branch t.id source.guest_count user.id now
destination_session user source t (some x) fresh now = record x {
  guest_count = x.guest_count + source.guest_count;
  updated_at = now;
}

-- An order item as `transferUnpaidBill` takes it
abbrev billed : ℕ → OrderItem → TableOrderItem
billed session i = record {
  id = i.id;
  session = session;
  quantity = i.quantity;
  unit_price = i.unit_price;
  item_discount = none;
  combo_discount = none;
  happy_hour_discount = none;
  line_discount = none;
  line_tax = none;
}

abbrev items_of : ℕ → List Order → List TableOrderItem
items_of session [] = []
items_of session (o ∷ os) = map (billed session) o.items ++ items_of session os

abbrev at_either : ℕ → ℕ → Option ℕ → Bool
at_either x y none = false
at_either x y (some z) = z == x || z == y

abbrev stays : ℕ → ℕ → Order → Bool
stays source target o = at_either source target o.session && not (is_cancelled o.status)

-- The items of the orders of both sessions that are not cancelled
unfoldable pub bill_items : Store → ℕ → ℕ → List TableOrderItem
bill_items s source target = items_of target (select (stays source target) (values s.orders))

-- The change of an order that goes to the destination
unfoldable pub moved_order : User → ℕ → DiningTable → ℕ → ℕ → Order → Order
moved_order user source t target now o =
    log_change
      (record {
        at = now;
        actor = user.id;
        approver = none;
        change = Change.table_transferred source target;
        reason = none;
      })
      (record o { table = some t.id; session = some target })

unfoldable pub move_orders : User → ℕ → DiningTable → ℕ → ℕ → List Order → M (List Order)
unfolding update_order moved_order
move_orders user source t target now [] = pure []
move_orders user source t target now (o ∷ os) = do
  changed ← update_order o.id o.version (λ d. ok (moved_order user source t target now d)) now
  rest ← move_orders user source t target now os
  pure (changed ∷ rest)

unfoldable pub sync_orders : List Order → ℕ → M (Unit {0})
unfolding sync_order_into_kds
sync_orders [] now = pure tt
sync_orders (o ∷ os) now = do sync_order_into_kds o now; sync_orders os now

abbrev pub transferred : User → ℕ → ℕ → TableSession → TableSession
transferred user target now x = record (closed_session user now x) { transferred_to = some target }

-- What is written once the orders are moved
unfoldable pub settle_transfer :
    User → TableSession → TableSession → List TableOrderItem → List Order → ℕ → ℕ → M TableSession
unfolding save_session transfer_unpaid_bill closed_session record_audit_event sync_orders
settle_transfer user source destination items changed bill_id now = do
  save_session destination
  transfer_unpaid_bill source.id destination.id items bill_id now
  save_session (transferred user destination.id now source)
  record_audit_event AuditAction.table_transferred user.id source.id 0 now
  sync_orders changed now
  pure destination

-- What follows on the guards; the id of the destination is that of its session.
unfoldable pub carry_out_transfer :
    User → TableSession → DiningTable → Option TableSession → ℕ → ℕ → ℕ → M TableSession
unfolding orders_of bill_items move_orders destination_session settle_transfer
carry_out_transfer user source t existing fresh bill_id now = do
  let target = target_id existing fresh
  leaving ← gets (λ s. orders_of s source.id)
  items ← gets (λ s. bill_items s source.id target)
  changed ← move_orders user source.id t target now leaving
  settle_transfer user source (destination_session user source t existing fresh now) items changed
      bill_id now

-- `assertBillEditable` on the bill of a session, where there is a session
abbrev pub editable_bill : Option ℕ → M (Unit {0})
editable_bill none = pure tt
editable_bill (some session) = λ s. lift (assert_bill_editable (get s.bills session)) s

abbrev pub session_id : Option TableSession → Option ℕ
session_id none = none
session_id (some x) = some x.id

abbrev pub is_free : Option TableSession → Bool
is_free none = true
is_free (some x) = false

unfoldable pub transfer_table_session : User → ℕ → ℕ → Bool → ℕ → ℕ → ℕ → M TableSession
unfolding require_open_session carry_out_transfer assert_bill_editable
transfer_table_session user id table merge fresh bill_id now = do
  lift (check (can user create_order) forbidden)
  source ← require_open_session id
  lift (check (not (source.table == table)) same_table)
  found ← gets (λ s. get s.tables table)
  lift (check (active_in found) destination_inactive)
  t ← lift (or_error found destination_inactive)
  lift (check (t.branch == source.branch && branch_matches user source.branch) forbidden)
  existing ← gets (λ s. earliest (open_sessions s source.branch t.id))
  lift (check (is_free existing || merge) destination_occupied)
  editable_bill (some source.id)
  editable_bill (session_id existing)
  carry_out_transfer user source t existing fresh bill_id now
