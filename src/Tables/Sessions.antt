-- ===== src/Tables/Sessions.antt =====
-- `openTableSessionImpl`, `assertTableSessionCanClose` and `closeTableSessionImpl` of
-- backend/tables/service.ts. The per-table lock is not modelled: each operation runs alone.
use restaurant_pos.Base.{
  ℕ, Bool, true, false, ◌&&◌, ◌||◌, Option, none, some, List, [], ◌∷◌, ◌==◌, leb, select, every,
}
use restaurant_pos.Base.Table.{get, put, remove, values}
use restaurant_pos.Base.Result.{
  check, or_error, forbidden, table_not_found, table_inactive, table_occupied, bad_guest_count,
  session_not_found, session_closed, order_incomplete, bill_incomplete, bill_missing,
}
use restaurant_pos.Store.{Store, M, pure, gets, lift, modify, ◌>>=◌, ◌>>◌}
use restaurant_pos.Auth.Policy.{User, can, create_order}
use restaurant_pos.Billing.Types.{Bill, is_paid, is_void, is_debt}
use restaurant_pos.Billing.Access.{orders_of}
use restaurant_pos.Orders.Types.{Order, is_delivered, is_cancelled}
use restaurant_pos.Tables.Types.{TableSession, opened, closed, is_active_table, is_open}

-- `saveTableSession`
unfoldable pub save_session : TableSession → M TableSession
save_session x = do modify (λ s. record s { sessions = put s.sessions x.id x }); pure x

abbrev pub is_open_at : ℕ → ℕ → TableSession → Bool
is_open_at branch table x = x.branch == branch && (x.table == table && is_open x.status)

-- `listTableSessions({ branchId, tableId, status: 'open' })`
abbrev pub open_sessions : Store → ℕ → ℕ → List TableSession
open_sessions s branch table = select (is_open_at branch table) (values s.sessions)

abbrev pub or_own : Option ℕ → ℕ → ℕ
or_own none own = own
or_own (some x) own = x

abbrev pub is_empty : List TableSession → Bool
is_empty [] = true
is_empty (_ ∷ _) = false

unfoldable pub new_session : ℕ → ℕ → ℕ → ℕ → ℕ → ℕ → TableSession
new_session id branch table guests user now = record {
  id = id;
  branch = branch;
  table = table;
  guest_count = guests;
  status = opened;
  opened_by = user;
  opened_at = now;
  closed_by = none;
  closed_at = none;
  transferred_to = none;
  updated_at = now;
}

-- The branch is that of the input, or the table's.
unfoldable pub open_table_session : User → ℕ → ℕ → Option ℕ → ℕ → ℕ → M TableSession
unfolding save_session new_session
open_table_session user table guests given id now = do
  lift (check (can user create_order) forbidden)
  found ← gets (λ s. get s.tables table)
  t ← lift (or_error found table_not_found)
  lift (check (is_active_table t.status) table_inactive)
  let branch = or_own given t.branch
  existing ← gets (λ s. open_sessions s branch table)
  lift (check (is_empty existing) table_occupied)
  lift (check (leb 1 guests) bad_guest_count)
  save_session (new_session id branch t.id guests user.id now)

abbrev pub is_final : Order → Bool
is_final o = is_delivered o.status || is_cancelled o.status

-- `isBillComplete`, on a bill that is there
abbrev pub is_bill_complete : Bill → Bool
is_bill_complete x = is_paid x.state || (is_void x.state || is_debt x.state)

-- Whether there is a bill, and one that is not complete.
abbrev pub lets_close : Option Bill → List Order → Bool × Bool
lets_close none [] = (true, true)
lets_close none (_ ∷ _) = (true, false)
lets_close (some x) os = (is_bill_complete x, true)

unfoldable pub assert_can_close : ℕ → M (Unit {0})
unfolding orders_of
assert_can_close session = do
  found ← gets (λ s. get s.sessions session)
  lift (or_error found session_not_found)
  linked ← gets (λ s. orders_of s session)
  lift (check (every is_final linked) order_incomplete)
  bill ← gets (λ s. get s.bills session)
  lift (check (lets_close bill linked).0 bill_incomplete)
  lift (check (lets_close bill linked).1 bill_missing)

unfoldable pub closed_session : User → ℕ → TableSession → TableSession
closed_session user now x = record x {
  status = closed;
  closed_by = some user.id;
  closed_at = some now;
  updated_at = now;
}

unfoldable pub close_table_session : User → ℕ → ℕ → M TableSession
unfolding assert_can_close closed_session save_session
close_table_session user session now = do
  lift (check (can user create_order) forbidden)
  found ← gets (λ s. get s.sessions session)
  x ← lift (or_error found session_not_found)
  lift (check (is_open x.status) session_closed)
  assert_can_close session
  save_session (closed_session user now x)

-- `removeTable`
unfoldable pub remove_table : ℕ → M (Unit {0})
remove_table table = do
  active ← gets (λ s. select (λ x. x.table == table && is_open x.status) (values s.sessions))
  lift (check (is_empty active) table_occupied)
  modify (λ s. record s { tables = remove s.tables table })
