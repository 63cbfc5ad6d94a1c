-- ===== src/Tables/Moved.antt =====
-- A transfer that goes through: the orders, and the sessions of both tables.
use restaurant_pos.Base.{
  false, ℕ, ◌≡◌, ◌≢◌, refl, sym, ◌∙◌, ap, inl, inr, Bool, true, not, ◌&&◌, ◌||◌, Option, none, some,
  ◌==◌, arith, Bool-cases, Option-cases,
}
use restaurant_pos.Base.Table.{IsMap, get, put, get-put_self, get-put_ne, All-select-get}
use restaurant_pos.Base.Result.{Result-cases, ok}
use restaurant_pos.Store.{Store}
use restaurant_pos.Store.Kept.{Keeps}
use restaurant_pos.Auth.Policy.{User, can, create_order}
use restaurant_pos.Billing.Update.{assert_bill_editable}
use restaurant_pos.Billing.Access.{orders_of, is_session}
use restaurant_pos.Orders.Types.{Order}
use restaurant_pos.Orders.Update.{branch_matches}
use restaurant_pos.Tables.Types.{DiningTable, TableSession, is_open, is_active_table}
use restaurant_pos.Tables.Access.{require_open_session}
use restaurant_pos.Tables.Sessions.{closed_session, open_sessions}
use restaurant_pos.Tables.Transfer.{
  earliest, move_orders, settle_transfer, carry_out_transfer, transferred, destination_session,
  target_id, bill_items, transfer_table_session, is_free,
}
use restaurant_pos.Tables.Destination.{destination-facts}
use restaurant_pos.Tables.Transferred.{
  move_orders-stays, move_orders-sessions, settle_transfer-writes,
}

module _ (user : User) (source : TableSession) (t : DiningTable) (existing : Option TableSession)
    (fresh bill_id now : ℕ) where
  carry_out_transfer_moves :
      (s : Store) (y : TableSession)
      → ((k : ℕ) (o : Order) → get s.orders k ≡ some o → o.id ≡ k)
      → target_id existing fresh ≢ source.id
      → (destination_session user source t existing fresh now).id ≡ target_id existing fresh
      → (carry_out_transfer user source t existing fresh bill_id now s).0 ≡ ok y
      → (y ≡ destination_session user source t existing fresh now)
        × ((k : ℕ) (o : Order)
            → get (carry_out_transfer user source t existing fresh bill_id now s).1.orders k
              ≡ some o
            → o.session ≢ some source.id)
        × ((carry_out_transfer user source t existing fresh bill_id now s).1.sessions
            ≡ put (put s.sessions y.id y) source.id (transferred user y.id now source))
  unfolding carry_out_transfer orders_of is_session Keeps
  carry_out_transfer_moves s y keyed apart own h =
      let target = target_id existing fresh in
      let destination = destination_session user source t existing fresh now in
      let leaving = orders_of s source.id in
      let items = bill_items s source.id target in
      let m = move_orders user source.id t target now leaving in
      let kept =
        move_orders-sessions user source.id t target now (λ e. apart (sym e)) leaving s.sessions s
          refl in
      elim (Result-cases (m s).0) [
        | inr (z, e) ↦ ground arith
        | inl (changed, e) ↦
            let last : (settle_transfer user source destination items changed bill_id now (m s).1).0
                ≡ ok y =
              ground arith in
            let (same, orders, sessions) =
              settle_transfer-writes user source destination items changed bill_id now (m s).1 y
                last in
            let whole : (carry_out_transfer user source t existing fresh bill_id now s).1
                ≡ (settle_transfer user source destination items changed bill_id now (m s).1).1 =
              ground arith in
            (
              same,
              (λ k o g at.
                  let there : get (m s).1.orders k ≡ some o = ground (arith, orders, whole, g) in
                  let (was, rest) =
                    move_orders-stays user source.id t target now (λ e. apart (sym e)) leaving
                      changed s k o e there at in
                  All-select-get (λ z. is_session source.id z.session) (λ z. z.id ≢ k) s.orders k o
                    rest was (ground arith) (keyed k o was)),
              ground (arith, whole, sessions, kept, same),
            )
      ]

-- How a transfer goes through its guards.
record Carried (user : User) (id table : ℕ) (merge : Bool) (fresh bill_id now : ℕ) (s : Store)
    : Type 0 where
  source : TableSession
  at_table : DiningTable
  existing : Option TableSession
  found : get s.sessions id ≡ some source
  was_open : is_open source.status ≡ true
  elsewhere : source.table ≢ table
  found_table : get s.tables table ≡ some at_table
  occupant : earliest (open_sessions s source.branch at_table.id) ≡ existing
  whole :
      transfer_table_session user id table merge fresh bill_id now s
      ≡ carry_out_transfer user source at_table existing fresh bill_id now s

transfer-Carried :
    (user : User) (id table : ℕ) (merge : Bool) (fresh bill_id now : ℕ) (s : Store)
    (y : TableSession)
    → (transfer_table_session user id table merge fresh bill_id now s).0 ≡ ok y
    → Carried user id table merge fresh bill_id now s
unfolding transfer_table_session require_open_session
transfer-Carried user id table merge fresh bill_id now s y h =
    elim (Bool-cases (can user create_order)) [
      | inr f ↦ ground arith
      | inl a ↦ elim (Option-cases (get s.sessions id)) [
        | inl e ↦ ground arith
        | inr (x, e) ↦ elim (Bool-cases (is_open x.status)) [
          | inr f ↦ ground arith
          | inl b ↦ elim (Bool-cases (not (x.table == table))) [
            | inr f ↦ ground arith
            | inl c ↦ elim (Option-cases (get s.tables table)) [
              | inl e1 ↦ ground arith
              | inr (t, e1) ↦
                  let o = earliest (open_sessions s x.branch t.id) in
                  elim (Bool-cases (is_active_table t.status)) [
                    | inr f ↦ ground arith
                    | inl d1 ↦
                        elim (Bool-cases (t.branch == x.branch && branch_matches user x.branch)) [
                          | inr f ↦ ground arith
                          | inl d2 ↦ elim (Bool-cases (is_free o || merge)) [
                            | inr f ↦ ground arith
                            | inl d3 ↦
                                elim (Result-cases (assert_bill_editable (get s.bills x.id))) [
                                  | inr (z, f) ↦ ground arith
                                  | inl (u, d4) ↦ elim (Option-cases o) [
                                    | inl d5 ↦ record {
                                      source = x;
                                      at_table = t;
                                      existing = o;
                                      found = e;
                                      was_open = b;
                                      elsewhere = ground arith;
                                      found_table = e1;
                                      occupant = refl;
                                      whole = ground arith;
                                    }
                                    | inr (w, d5) ↦
                                        elim (Result-cases
                                          (assert_bill_editable (get s.bills w.id))) [
                                            | inr (z, f) ↦ ground arith
                                            | inl (v, d6) ↦ record {
                                              source = x;
                                              at_table = t;
                                              existing = o;
                                              found = e;
                                              was_open = b;
                                              elsewhere = ground arith;
                                              found_table = e1;
                                              occupant = refl;
                                              whole = ground arith;
                                            }
                                          ]
                                  ]
                                ]
                          ]
                        ]
                  ]
            ]
          ]
        ]
      ]
    ]

-- A transfer that goes through leaves no order on the source session, which was open and is closed, by
-- the user and at that time, and points to the destination; the destination is open at the table asked
-- for, and is the session returned. Orders,
-- sessions and tables stand under their ids, no id has two sessions, and the fresh id has none.
pub transfer_table_session_moves :
    (user : User) (id table : ℕ) (merge : Bool) (fresh bill_id now : ℕ) (s : Store)
    (y : TableSession)
    → ((k : ℕ) (o : Order) → get s.orders k ≡ some o → o.id ≡ k)
    → ((k : ℕ) (z : TableSession) → get s.sessions k ≡ some z → z.id ≡ k)
    → ((k : ℕ) (z : DiningTable) → get s.tables k ≡ some z → z.id ≡ k)
    → IsMap s.sessions
    → get s.sessions fresh ≡ none
    → (transfer_table_session user id table merge fresh bill_id now s).0 ≡ ok y
    → ((k : ℕ) (o : Order)
        → get (transfer_table_session user id table merge fresh bill_id now s).1.orders k ≡ some o
        → o.session ≢ some id)
      × ((x : TableSession) × (z : TableSession) × (get s.sessions id ≡ some x)
          × (get (transfer_table_session user id table merge fresh bill_id now s).1.sessions id
              ≡ some z)
          × (is_open x.status ≡ true)
          × (is_open z.status ≡ false)
          × (z.transferred_to ≡ some y.id)
          × (z.closed_by ≡ some user.id)
          × (z.closed_at ≡ some now)
          × (z.table ≡ x.table))
      × (get (transfer_table_session user id table merge fresh bill_id now s).1.sessions y.id
          ≡ some y)
      × (y.table ≡ table)
      × (is_open y.status ≡ true)
unfolding closed_session
transfer_table_session_moves user id table merge fresh bill_id now s y orders sessions tables proper
      unused h =
    let c = transfer-Carried user id table merge fresh bill_id now s y h in
    let own = sessions id c.source c.found in
    let at = tables table c.at_table c.found_table in
    let (apart, id_of, placed, open_there) =
      destination-facts user c.source c.at_table c.existing fresh now s proper sessions
        (ground (arith, c.found, own)) (ground (arith, c.elsewhere, at)) unused c.occupant in
    let (same, left, written) =
      carry_out_transfer_moves user c.source c.at_table c.existing fresh bill_id now s y orders
        apart id_of (sym (ap (λ r. r.0) c.whole) ∙ h) in
    let kept =
      get-put_self (put s.sessions y.id y) c.source.id (transferred user y.id now c.source) in
    let here = get-put_self s.sessions y.id y in
    let other : y.id ≢ c.source.id = ground (arith, same, id_of, apart) in
    let beside =
      get-put_ne (put s.sessions y.id y) y.id c.source.id (transferred user y.id now c.source)
        other in
    let after = ap (λ r. r.1) c.whole in
    (
      (λ k o g e. left k o (ground (arith, after, g)) (ground (arith, e, own))),
      (
        c.source,
        transferred user y.id now c.source,
        c.found,
        ground (arith, after, written, kept, own),
        c.was_open,
        refl,
        refl,
        refl,
        refl,
        refl,
      ),
      ground (arith, after, written, beside, here),
      ground (arith, same, placed, at),
      ground (arith, same, open_there),
    )
