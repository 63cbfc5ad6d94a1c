-- ===== src/Orders/Stored.antt =====
-- What is stored of an order after an operation on it: what follows the write leaves it there.
use restaurant_pos.Base.{
  ℕ, ◌≡◌, sym, subst, inl, inr, Bool, true, false, Option, none, some, List, [], ◌∷◌, arith,
  Bool-cases, Option-cases, find, ◌==◌,
}
use restaurant_pos.Base.Table.{Table, get, get-put_self}
use restaurant_pos.Base.Result.{Result, Result-cases, ok}
use restaurant_pos.Store.{Store, AuditAction, pure, gets, lift, modify, ◌>>=◌, ◌>>◌}
use restaurant_pos.Store.Kept.{Keeps, Keeps-bind, Keeps-then, Keeps-lift, Keeps-modify}
use restaurant_pos.Auth.Policy.{User, can, transition_order_status}
use restaurant_pos.Inventory.Types.{Trigger}
use restaurant_pos.Inventory.Ledger.{
  MovementInput, append_stock_movement, with_movement, mark_deducted, check_movement, is_deducted,
}
use restaurant_pos.Billing.Access.{save_bill, record_audit_event}
use restaurant_pos.Billing.Editing.Items.{remove_voided_item}
use restaurant_pos.Orders.Edit.{EditInput, apply_edit, carry_out_edit, remove_ids_from_bill}
use restaurant_pos.Kds.Board.{sync_order_into_kds}
use restaurant_pos.Orders.Types.{Order, OrderItem, OrderStatus}
use restaurant_pos.Orders.Deduct.{
  Requirement, deduct_requirements, deduct_item, deduct_items, deduction_of, requirements,
  deduction_trigger,
}
use restaurant_pos.Orders.Update.{update_order, load_order}
use restaurant_pos.Orders.Laws.{check_stock-store}
use restaurant_pos.Orders.Transition.{check_stock, take_stock, move_status, transition_order}

-- Taking stock leaves the orders alone.
module _ (P : Table Order → Type 0) where
  pure-Keeps : {A : Type 0} (a : A) → Keeps (λ s. P s.orders) (pure a)
  unfolding Keeps
  pure-Keeps a = λ s h. h

  gets-Keeps : {A : Type 0} (f : Store → A) → Keeps (λ s. P s.orders) (gets f)
  unfolding Keeps
  gets-Keeps f = λ s h. h

  append-Keeps :
      (input : MovementInput) (actor : Option ℕ) (now id : ℕ)
      → Keeps (λ s. P s.orders) (append_stock_movement input actor now id)
  unfolding append_stock_movement Keeps with_movement
  append-Keeps input actor now id s h = subst P (sym same) h
    where
      same : (append_stock_movement input actor now id s).1.orders ≡ s.orders
      same = elim (Option-cases (find (λ i. i.id == input.item) s.stock.items)) [
        | inl e ↦ ground arith
        | inr (i, e) ↦ elim (Bool-cases (check_movement s.stock input).0) [
          | inr f ↦ ground arith
          | inl a ↦ elim (Bool-cases (check_movement s.stock input).1) [
            | inr f ↦ ground arith
            | inl b ↦ elim (Bool-cases (check_movement s.stock input).2) [
              | inr f ↦ ground arith
              | inl c ↦ ground arith
            ]
          ]
        ]
      ]

  requirements-Keeps :
      (o : Order) (i : OrderItem) (t : Trigger) (actor now : ℕ) (rs : List Requirement)
      → Keeps (λ s. P s.orders) (deduct_requirements o i t actor now rs)
  unfolding deduct_requirements
  requirements-Keeps o i t actor now [] = pure-Keeps tt
  requirements-Keeps o i t actor now (r ∷ rs) =
      Keeps-then (λ s. P s.orders) _ _ (append-Keeps (deduction_of o i t r) (some actor) now 0)
        (requirements-Keeps o i t actor now rs)

  deduct_item-Keeps :
      (link : Bool) (o : Order) (t : Trigger) (actor now : ℕ) (i : OrderItem)
      → Keeps (λ s. P s.orders) (deduct_item link o t actor now i)
  unfolding deduct_item mark_deducted
  deduct_item-Keeps link o t actor now i =
      Keeps-bind (λ s. P s.orders) _ _ (gets-Keeps (λ s. is_deducted s.stock i.id t)) rest
    where
      rest :
          (done : Bool)
          → Keeps
              (λ s. P s.orders)
              (elim done [
                | true ↦ pure tt
                | false ↦ do
                  stock ← gets (λ s. s.stock)
                  rs ← lift (requirements link stock i)
                  deduct_requirements o i t actor now rs
                  modify (mark_deducted o.id i.id t)
              ])
      rest true = pure-Keeps tt
      rest false =
          Keeps-bind (λ s. P s.orders) _ _ (gets-Keeps (λ s. s.stock))
            λ stock.
              Keeps-lift (λ s. P s.orders) (requirements link stock i) _
                λ rs _.
                  Keeps-then (λ s. P s.orders) _ _ (requirements-Keeps o i t actor now rs)
                    (Keeps-modify (λ s. P s.orders) (mark_deducted o.id i.id t) (λ s h. h))

  deduct_items-Keeps :
      (link : Bool) (o : Order) (t : Trigger) (actor now : ℕ) (is : List OrderItem)
      → Keeps (λ s. P s.orders) (deduct_items link o t actor now is)
  unfolding deduct_items
  deduct_items-Keeps link o t actor now [] = pure-Keeps tt
  deduct_items-Keeps link o t actor now (i ∷ is) =
      Keeps-then (λ s. P s.orders) _ _ (deduct_item-Keeps link o t actor now i)
        (deduct_items-Keeps link o t actor now is)

  pub take_stock-Keeps :
      (link : Bool) (user : User) (o : Order) (t : Option Trigger) (now : ℕ)
      → Keeps (λ s. P s.orders) (take_stock link user o t now)
  unfolding take_stock
  take_stock-Keeps link user o none now = pure-Keeps tt
  take_stock-Keeps link user o (some t) now = deduct_items-Keeps link o t user.id now o.items

  remove_voided_item-Keeps :
      (session id now : ℕ) → Keeps (λ s. P s.orders) (remove_voided_item session id now)
  unfolding remove_voided_item save_bill Keeps
  remove_voided_item-Keeps session id now s h = subst P (sym same) h
    where
      same : (remove_voided_item session id now s).1.orders ≡ s.orders
      same = elim (Option-cases (get s.bills session)) [
        | inl e ↦ ground arith
        | inr (x, e) ↦ ground arith
      ]

  pub remove_ids-Keeps :
      (session : Option ℕ) (ids : List ℕ) (now : ℕ)
      → Keeps (λ s. P s.orders) (remove_ids_from_bill session ids now)
  unfolding remove_ids_from_bill Keeps
  remove_ids-Keeps none ids now = λ s h. h
  remove_ids-Keeps (some x) [] now = λ s h. h
  remove_ids-Keeps (some x) (id ∷ ids) now =
      Keeps-then (λ s. P s.orders) (remove_voided_item x id now)
        (remove_ids_from_bill (some x) ids now) (remove_voided_item-Keeps x id now)
        (remove_ids-Keeps (some x) ids now)

pub update_order-stored :
    (id expected now : ℕ) (mutate : Order → Result Order) (s : Store) (y : Order)
    → (update_order id expected mutate now s).0 ≡ ok y
    → get (update_order id expected mutate now s).1.orders id ≡ some y
unfolding update_order load_order
update_order-stored id expected now mutate s y h = elim (Option-cases (get s.orders id)) [
  | inl e ↦ ground arith
  | inr (x, e) ↦ elim (Bool-cases (x.version == expected)) [
    | inr f ↦ ground arith
    | inl t ↦ elim (Result-cases (mutate x)) [
      | inr (c, f) ↦ ground arith
      | inl (d, g) ↦ let written = get-put_self s.orders id y in ground arith
    ]
  ]
]

-- The order that a transition gives back is the one that is stored afterwards.
pub transition_order-stored :
    (link : Bool) (user : User) (id expected : ℕ) (next : OrderStatus) (now : ℕ) (s : Store)
    (y : Order)
    → (transition_order link user id expected next now s).0 ≡ ok y
    → get (transition_order link user id expected next now s).1.orders id ≡ some y
unfolding transition_order sync_order_into_kds Keeps
transition_order-stored link user id expected next now s y h =
    let t = deduction_trigger s.stock.trigger_policy next in
    let kept = check_stock-store link id t s in
    elim (Bool-cases (can user transition_order_status)) [
      | inr f ↦ ground arith
      | inl a ↦ elim (Result-cases (check_stock link id t s).0) [
        | inr (c, f) ↦ ground arith
        | inl (_, b) ↦
            let change = update_order id expected (move_status user next now) now in
            elim (Result-cases (change s).0) [
              | inr (c, f) ↦ ground arith
              | inl (o, g) ↦
                  let stored =
                    take_stock-Keeps (λ z. get z id ≡ some o) link user o t now (change s).1
                      (update_order-stored id expected now (move_status user next now) s o g) in
                  elim (Result-cases (take_stock link user o t now (change s).1).0) [
                    | inr (c, f) ↦ ground arith
                    | inl (_, e) ↦ ground arith
                  ]
            ]
      ]
    ]

-- So is the order that an edit gives back.
pub carry_out_edit-stored :
    (user : User) (id : ℕ) (input : EditInput) (added : List OrderItem) (now : ℕ) (s : Store)
    (y : Order)
    → (carry_out_edit user id input added now s).0 ≡ ok y
    → get (carry_out_edit user id input added now s).1.orders id ≡ some y
unfolding carry_out_edit sync_order_into_kds record_audit_event Keeps
carry_out_edit-stored user id input added now s y h =
    let change = update_order id input.expected (apply_edit user input added now) now in
    elim (Result-cases (change s).0) [
      | inr (z, f) ↦ ground arith
      | inl (o, g) ↦
          let audited =
            (record_audit_event AuditAction.order_edited user.id o.id 0 now (change s).1).1 in
          let stored =
            remove_ids-Keeps (λ z. get z id ≡ some o) o.session input.remove_items now audited
              (update_order-stored id input.expected now (apply_edit user input added now) s o g) in
          elim (Result-cases (remove_ids_from_bill o.session input.remove_items now audited).0) [
            | inr (z, f) ↦ ground arith
            | inl (_, f) ↦ ground arith
          ]
    ]
