-- ===== src/Tables/Closing.antt =====
-- What closing a session requires.
use restaurant_pos.Base.{
  ℕ, ◌≡◌, refl, sym, ◌∙◌, ap, subst, ◌⊎◌, inl, inr, true, false, Option, none, some, List, [], ◌∷◌,
  every, arith, Bool-cases, Option-cases,
}
use restaurant_pos.Base.Table.{get, get-put_self}
use restaurant_pos.Base.Result.{
  ok, err, Error, forbidden, session_not_found, session_closed, order_incomplete, bill_incomplete,
  bill_missing,
}
use restaurant_pos.Store.{Store}
use restaurant_pos.Auth.Policy.{User, can, create_order}
use restaurant_pos.Billing.Types.{Bill}
use restaurant_pos.Billing.Access.{orders_of}
use restaurant_pos.Orders.Types.{Order}
use restaurant_pos.Tables.Types.{TableSession, closed, is_open}
use restaurant_pos.Tables.Sessions.{
  close_table_session, assert_can_close, is_open_at, is_final, is_bill_complete, lets_close,
  save_session, closed_session,
}
use restaurant_pos.Tables.Laws.{count-put_not, OneOpen, stored}

-- What a session that can close looks like.
record Closed (s : Store) (user : User) (session now : ℕ) : Type 0 where
  pub was : TableSession
  pub found : get s.sessions session ≡ some was
  pub final : every is_final (orders_of s session) ≡ true
  pub complete : (x : Bill) → get s.bills session ≡ some x → is_bill_complete x ≡ true
  pub billed : get s.bills session ≡ none → orders_of s session ≡ []
  pub gives : (close_table_session user session now s).0 ≡ ok (closed_session user now was)
  pub after : (close_table_session user session now s).1 ≡ stored s (closed_session user now was)

lets_close_lem :
    (o : Option Bill) (os : List Order)
    → (lets_close o os).0 ≡ true
    → (lets_close o os).1 ≡ true
    → ((x : Bill) → o ≡ some x → is_bill_complete x ≡ true) × (o ≡ none → os ≡ [])
lets_close_lem none [] h k = ((λ x e. cc), (λ e. refl))
lets_close_lem none (q ∷ os) h k = cc
lets_close_lem (some y) os h k = ((λ x e. ground arith), (λ e. cc))

close_table_session_cases :
    (user : User) (session now : ℕ) (s : Store)
    → (((close_table_session user session now s).1 ≡ s)
        × ((e : Error) × ((close_table_session user session now s).0 ≡ err e)))
      ⊎ Closed s user session now
unfolding close_table_session save_session assert_can_close
close_table_session_cases user session now s = elim (Bool-cases (can user create_order)) [
  | inr f ↦ inl (ground arith, (forbidden, ground arith))
  | inl a ↦ elim (Option-cases (get s.sessions session)) [
    | inl e ↦ inl (ground arith, (session_not_found, ground arith))
    | inr (x, e) ↦ elim (Bool-cases (is_open x.status)) [
      | inr f ↦ inl (ground arith, (session_closed, ground arith))
      | inl b ↦ elim (Bool-cases (every is_final (orders_of s session))) [
        | inr f ↦ inl (ground arith, (order_incomplete, ground arith))
        | inl c ↦ elim (Bool-cases (lets_close (get s.bills session) (orders_of s session)).0) [
          | inr f ↦ inl (ground arith, (bill_incomplete, ground arith))
          | inl d ↦ elim (Bool-cases (lets_close (get s.bills session) (orders_of s session)).1) [
            | inr f ↦ inl (ground arith, (bill_missing, ground arith))
            | inl g ↦
                let facts = lets_close_lem (get s.bills session) (orders_of s session) d g in
                inr (record {
                  was = x;
                  found = e;
                  final = c;
                  complete = facts.0;
                  billed = facts.1;
                  gives = ground arith;
                  after = ground arith;
                })
          ]
        ]
      ]
    ]
  ]
]

closed-OneOpen :
    (s : Store) (x : TableSession) → OneOpen s → is_open x.status ≡ false → OneOpen (stored s x)
closed-OneOpen s x h shut = record {
  keyed = h.keyed;
  one = λ branch table. omega (
    arith,
    count-put_not (is_open_at branch table) s.sessions x.id x (ground arith),
    h.one branch table,
  );
}

-- Closing a session keeps at most one open session on each table, whether or not it goes through.
pub close_table_session-OneOpen :
    (user : User) (session now : ℕ) (s : Store)
    → OneOpen s
    → OneOpen (close_table_session user session now s).1
unfolding closed_session
close_table_session-OneOpen user session now s h =
    elim (close_table_session_cases user session now s) [
      | inl (same, _) ↦ subst OneOpen (sym same) h
      | inr c ↦
          subst OneOpen (sym c.after) (closed-OneOpen s (closed_session user now c.was) h refl)
    ]

-- A session closes only when each of its orders is delivered or cancelled and its bill is paid, void
-- or in debt, where only a session without orders may lack a bill; it is then stored as closed.
pub close_table_session_settled :
    (user : User) (session now : ℕ) (s s' : Store) (y : TableSession)
    → close_table_session user session now s ≡ (ok y, s')
    → (every is_final (orders_of s session) ≡ true)
      × ((x : Bill) → get s.bills session ≡ some x → is_bill_complete x ≡ true)
      × (get s.bills session ≡ none → orders_of s session ≡ [])
      × (get s'.sessions y.id ≡ some y)
      × (y.status ≡ closed)
unfolding closed_session
close_table_session_settled user session now s s' y h =
    elim (close_table_session_cases user session now s) [
      | inl (_, (e, k)) ↦ ground arith
      | inr c ↦
          let same : closed_session user now c.was ≡ y = ground (arith, c.gives) in
          let kept : s' ≡ stored s y = sym (ap (λ r. r.1) h) ∙ (c.after ∙ ap (stored s) same) in
          (
            c.final,
            c.complete,
            c.billed,
            rw kept (get-put_self s.sessions y.id y),
            sym (ap (λ v. v.status) same),
          )
    ]
