-- ===== src/Tables/Transferred.antt =====
-- What a transfer leaves behind.
use restaurant_pos.Base.{
  ℕ, ◌≡◌, ◌≢◌, refl, inl, inr, Option, none, some, List, [], ◌∷◌, ◌==◌, ==_iff, All, arith,
  Bool-cases, Option-cases,
}
use restaurant_pos.Base.Table.{Table, get, put, get-put_self, get-put_ne}
use restaurant_pos.Base.Result.{Result, Result-cases, ok}
use restaurant_pos.Store.{Store, AuditAction, pure, ◌>>=◌}
use restaurant_pos.Store.Kept.{Keeps, Keeps-bind}
use restaurant_pos.Auth.Policy.{User}
use restaurant_pos.Billing.Types.{Bill, TableOrderItem}
use restaurant_pos.Billing.Update.{assert_bill_editable, update_bill}
use restaurant_pos.Billing.Access.{record_audit_event, save_bill}
use restaurant_pos.Billing.Editing.Move.{
  transfer_unpaid_bill, moved_bill, close_source, add_unassigned,
}
use restaurant_pos.Kds.Board.{sync_order_into_kds}
use restaurant_pos.Orders.Types.{Order}
use restaurant_pos.Orders.Update.{update_order, load_order}
use restaurant_pos.Tables.Types.{DiningTable, TableSession}
use restaurant_pos.Tables.Sessions.{save_session, closed_session}
use restaurant_pos.Tables.Transfer.{
  move_orders, moved_order, sync_orders, settle_transfer, transferred,
}

-- What the steps on bills and the board leave alone
abbrev Aside : Store → Store → Type 0
Aside s t = (t.orders ≡ s.orders) × (t.sessions ≡ s.sessions)

close_source-Aside : (x : Option Bill) (now : ℕ) (s : Store) → Aside s (close_source x now s).1
unfolding close_source save_bill
close_source-Aside none now s = (refl, refl)
close_source-Aside (some x) now s = ground arith

transfer_unpaid_bill-Aside :
    (source destination : ℕ) (items : List TableOrderItem) (id now : ℕ) (s : Store)
    → Aside s (transfer_unpaid_bill source destination items id now s).1
unfolding transfer_unpaid_bill save_bill
transfer_unpaid_bill-Aside source destination items id now s =
    elim (Result-cases (assert_bill_editable (get s.bills source))) [
      | inr (z, e) ↦ ground arith
      | inl (u, e) ↦ elim (Result-cases (assert_bill_editable (get s.bills destination))) [
        | inr (z, e1) ↦ ground arith
        | inl (v, e1) ↦
            elim (Option-cases
              (moved_bill (get s.bills source) (get s.bills destination) destination id)) [
                | inl e2 ↦ ground arith
                | inr (x, e2) ↦
                    elim (Result-cases
                      (update_bill now (record x { splits = add_unassigned x.splits items }))) [
                        | inr (z, e3) ↦ ground arith
                        | inl (final, e3) ↦
                            let (orders, sessions) =
                              close_source-Aside (get s.bills source) now (save_bill final s).1 in
                            (ground (arith, orders), ground (arith, sessions))
                      ]
              ]
      ]
    ]

sync_orders-Aside : (os : List Order) (now : ℕ) (s : Store) → Aside s (sync_orders os now s).1
unfolding sync_orders sync_order_into_kds
sync_orders-Aside [] now s = (refl, refl)
sync_orders-Aside (o ∷ os) now s = sync_orders-Aside os now (sync_order_into_kds o now s).1

update_order-orders :
    (id expected now : ℕ) (mutate : Order → Result Order) (s : Store) (y : Order)
    → (update_order id expected mutate now s).0 ≡ ok y
    → ((update_order id expected mutate now s).1.orders ≡ put s.orders id y)
      × ((update_order id expected mutate now s).1.sessions ≡ s.sessions)
unfolding update_order load_order
update_order-orders id expected now mutate s y h = elim (Option-cases (get s.orders id)) [
  | inl e ↦ ground arith
  | inr (x, e) ↦ elim (Bool-cases (x.version == expected)) [
    | inr f ↦ ground arith
    | inl v ↦ elim (Result-cases (mutate x)) [
      | inr (z, g) ↦ ground arith
      | inl (d, g) ↦ (ground arith, ground arith)
    ]
  ]
]

abbrev pub SameSessions : Table TableSession → Store → Type 0
SameSessions before s = s.sessions ≡ before

update_order-sessions :
    (id expected now : ℕ) (mutate : Order → Result Order) (before : Table TableSession)
    → Keeps (SameSessions before) (update_order id expected mutate now)
unfolding update_order load_order Keeps
update_order-sessions id expected now mutate before s h = elim (Option-cases (get s.orders id)) [
  | inl e ↦ ground arith
  | inr (x, e) ↦ elim (Bool-cases (x.version == expected)) [
    | inr f ↦ ground arith
    | inl v ↦ elim (Result-cases (mutate x)) [
      | inr (z, g) ↦ ground arith
      | inl (d, g) ↦ ground arith
    ]
  ]
]

module _ (user : User) (source : ℕ) (t : DiningTable) (target now : ℕ)
    (apart : source ≢ target) where
  moved_session :
      (o : Order) (s : Store) (x : Order)
      → (update_order o.id o.version (λ d. ok (moved_order user source t target now d)) now s).0
        ≡ ok x
      → x.session ≡ some target
  unfolding update_order load_order moved_order
  moved_session o s x h = elim (Option-cases (get s.orders o.id)) [
    | inl e ↦ ground arith
    | inr (c, e) ↦ elim (Bool-cases (c.version == o.version)) [
      | inr f ↦ ground arith
      | inl v ↦ ground arith
    ]
  ]

  -- An order that is still of the source was there before, and is none of those that were moved.
  pub move_orders-stays :
      (os ys : List Order) (s : Store) (k : ℕ) (y : Order)
      → (move_orders user source t target now os s).0 ≡ ok ys
      → get (move_orders user source t target now os s).1.orders k ≡ some y
      → y.session ≡ some source
      → (get s.orders k ≡ some y) × All (λ o. o.id ≢ k) os
  unfolding move_orders
  move_orders-stays [] ys s k y h g at = (g, tt)
  move_orders-stays (o ∷ os) ys s k y h g at =
      elim (Result-cases
        (update_order o.id o.version (λ d. ok (moved_order user source t target now d)) now s).0) [
          | inr (z, e) ↦ ground arith
          | inl (x, e) ↦
              let s1 =
                (update_order o.id o.version (λ d. ok (moved_order user source t target now d)) now
                  s).1 in
              elim (Result-cases (move_orders user source t target now os s1).0) [
                | inr (z, f) ↦ ground arith
                | inl (zs, f) ↦
                    let here : get (move_orders user source t target now os s1).1.orders k
                        ≡ some y =
                      ground arith in
                    let (found, rest) = move_orders-stays os zs s1 k y f here at in
                    let (orders, _) =
                      update_order-orders o.id o.version now
                        (λ d. ok (moved_order user source t target now d)) s x e in
                    let moved : x.session ≡ some target = moved_session o s x e in
                    elim (Bool-cases (k == o.id)) [
                      | inl same ↦
                          let one : k ≡ o.id = (==_iff k o.id).0 same in
                          let at_target = get-put_self s.orders o.id x in
                          absurd (ground (arith, orders, moved, one))
                      | inr other ↦
                          let else_ = get-put_ne s.orders k o.id x (ground arith) in
                          (ground (arith, orders), (λ q. ground arith, rest))
                    ]
              ]
        ]

  pub move_orders-sessions :
      (os : List Order) (before : Table TableSession)
      → Keeps (SameSessions before) (move_orders user source t target now os)
  unfolding move_orders Keeps
  move_orders-sessions [] before = λ s h. h
  move_orders-sessions (o ∷ os) before =
      Keeps-bind (SameSessions before)
        (update_order o.id o.version (λ d. ok (moved_order user source t target now d)) now)
        (λ changed. move_orders user source t target now os >>= λ rest. pure (changed ∷ rest))
        (update_order-sessions o.id o.version now (λ d. ok (moved_order user source t target now d))
          before)
        λ changed.
          Keeps-bind (SameSessions before) (move_orders user source t target now os)
            (λ rest. pure (changed ∷ rest)) (move_orders-sessions os before) (λ rest s h. h)

-- What the last steps write: the sessions of both sides, and no order.
pub settle_transfer-writes :
    (user : User) (source destination : TableSession) (items : List TableOrderItem)
    (changed : List Order) (bill_id now : ℕ) (s : Store) (y : TableSession)
    → (settle_transfer user source destination items changed bill_id now s).0 ≡ ok y
    → (y ≡ destination)
      × ((settle_transfer user source destination items changed bill_id now s).1.orders ≡ s.orders)
      × ((settle_transfer user source destination items changed bill_id now s).1.sessions
          ≡ put
              (put s.sessions destination.id destination)
              source.id
              (transferred user destination.id now source))
unfolding settle_transfer save_session record_audit_event closed_session
settle_transfer-writes user source destination items changed bill_id now s y h =
    let s1 = (save_session destination s).1 in
    let m = transfer_unpaid_bill source.id destination.id items bill_id now in
    let (orders, sessions) =
      transfer_unpaid_bill-Aside source.id destination.id items bill_id now s1 in
    elim (Result-cases (m s1).0) [
      | inr (z, e) ↦ ground arith
      | inl (u, e) ↦
          let s2 = (save_session (transferred user destination.id now source) (m s1).1).1 in
          let s3 =
            (record_audit_event AuditAction.table_transferred user.id source.id 0 now s2).1 in
          let (orders3, sessions3) = sync_orders-Aside changed now s3 in
          (ground arith, ground arith, ground arith)
    ]
