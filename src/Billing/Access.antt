-- ===== src/Billing/Access.antt =====
-- Reading and writing bills, the audit entries, and `assertSessionItemAssignments` of
-- backend/billing/service.ts.
use restaurant_pos.Base.{
  ℕ, ◌+◌, ◌*◌, ◌/◌, Bool, false, ◌&&◌, Option, none, some, List, [], ◌∷◌, ◌++◌, ◌==◌, ltb,
  if◌then◌else◌, find, select, every,
}
use restaurant_pos.Base.Table.{get, put, values}
use restaurant_pos.Base.Result.{
  Result, ok, err, and_then, check, or_error, bill_not_found, unknown_item, bad_quantity,
  split_mismatch, wrong_session,
}
use restaurant_pos.Store.{Store, M, lift, modify, AuditAction}
use restaurant_pos.Orders.Types.{Order, OrderItem, is_cancelled}
use restaurant_pos.Billing.Types.{Bill, TableOrderItem, DebtEntry}

-- `getBillByTableSessionId`, where the caller throws if there is none
unfoldable pub load_bill : ℕ → M Bill
load_bill session s = lift (or_error (get s.bills session) bill_not_found) s

-- `saveBill`
unfoldable pub save_bill : Bill → M Bill
save_bill b s = (ok b, record s { bills = put s.bills b.session b })

unfoldable pub append_billing_audit : AuditAction → ℕ → ℕ → ℕ → ℕ → M (Unit {0})
append_billing_audit action actor subject amount at = modify (λ s. record s {
  billing_audit =
      record { action = action; actor = some actor; subject = subject; amount = amount; at = at }
      ∷ s.billing_audit;
})

unfoldable pub record_audit_event : AuditAction → ℕ → ℕ → ℕ → ℕ → M (Unit {0})
record_audit_event action actor subject amount at = modify (λ s. record s {
  audit =
      record { action = action; actor = some actor; subject = subject; amount = amount; at = at }
      ∷ s.audit;
})

-- `appendDebtLedgerEntry`
unfoldable pub append_debt : DebtEntry → M (Unit {0})
append_debt e = modify (λ s. record s { debts = e ∷ s.debts })

unfoldable pub is_session : ℕ → Option ℕ → Bool
is_session session none = false
is_session session (some x) = x == session

unfoldable pub orders_of : Store → ℕ → List Order
unfolding is_session
orders_of s session = select (λ o. is_session session o.session) (values s.orders)

unfoldable pub ordered_items : List Order → List OrderItem
ordered_items [] = []
ordered_items (o ∷ os) =
    if is_cancelled o.status then ordered_items os else o.items ++ ordered_items os

-- A quantity in thousandths, by `round2`, in hundredths.
abbrev hundredths : ℕ → ℕ
hundredths q = (q + 5) / 10

-- `quantities.get(id)` after the loop over the items
unfoldable pub assigned : ℕ → List TableOrderItem → Option ℕ → Option ℕ
assigned id [] total = total
assigned id (x ∷ xs) total = assigned id xs (
    if x.id == id
    then some (hundredths (elim total [ none ↦ 0 | some n ↦ 10 * n ] + x.quantity))
    else total)

unfoldable pub check_item : List OrderItem → TableOrderItem → Result (Unit {0})
check_item actual x = elim (find (λ i. i.id == x.id) actual) [
  | none ↦ err unknown_item
  | some original ↦
      if ltb 0 x.quantity && x.unit_price == original.unit_price then ok tt else err bad_quantity
]

unfoldable pub check_items : List OrderItem → List TableOrderItem → Result (Unit {0})
unfolding check_item
check_items actual [] = ok tt
check_items actual (x ∷ xs) = and_then (check_item actual x) λ _. check_items actual xs

abbrev matches : Option ℕ → ℕ → Bool
matches none q = false
matches (some n) q = n == hundredths q

-- The assignment of the session's items to splits accounts for exactly what was ordered.
unfoldable pub check_assignments : List Order → List TableOrderItem → Result (Unit {0})
unfolding check_items ordered_items assigned
check_assignments [] items = ok tt
check_assignments (o ∷ os) items =
    let actual = ordered_items (o ∷ os) in
    and_then (check_items actual items)
      λ _. check (every (λ i. matches (assigned i.id items none) i.quantity) actual) split_mismatch

unfoldable pub assert_session_item_assignments : ℕ → List TableOrderItem → M (Unit {0})
unfolding check_assignments orders_of
assert_session_item_assignments session items s = (check_assignments (orders_of s session) items, s)

-- Every item belongs to the session.
unfoldable pub assert_same_session : ℕ → List TableOrderItem → Result (Unit {0})
assert_same_session session items = check (every (λ i. i.session == session) items) wrong_session
