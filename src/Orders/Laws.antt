-- ===== src/Orders/Laws.antt =====
-- The life of an order: which statuses follow which, and the version that guards each change.
use restaurant_pos.Base.{
  ℕ, ◌≡◌, refl, sym, ◌∙◌, ap, inl, inr, Bool, true, false, Option, none, some, List, [], ◌∷◌, ◌==◌,
  ==_iff, some_of, arith, Bool-cases, Option-cases, subst,
}
use restaurant_pos.Base.Text.{Text}
use restaurant_pos.Base.Table.{get}
use restaurant_pos.Base.Result.{Result, Result-cases, ok}
use restaurant_pos.Store.{Store}
use restaurant_pos.Auth.Policy.{User, Role, can, transition_order_status}
use restaurant_pos.Inventory.Types.{Trigger}
use restaurant_pos.Orders.Types.{
  Order, OrderStatus, pending, in_preparation, completed, delivered, cancelled, is_cancelled,
}
use restaurant_pos.Orders.Update.{update_order, load_order, bumped, branch_matches}
use restaurant_pos.Orders.Deduct.{deduction_trigger}
use restaurant_pos.Orders.Transition.{
  front_of_house, transition_order, move_status, check_stock, take_stock, role_status_flow,
}
use restaurant_pos.Orders.Cancel.{mark_cancelled}

-- The steps of a status.
pub data Step : OrderStatus → OrderStatus → Type 0 where
  start : Step pending in_preparation
  finish : Step in_preparation completed
  deliver : Step completed delivered
  cancel : (x : OrderStatus) → is_cancelled x ≡ false → Step x cancelled

-- What a change under the version check did.
pub record Changed (s : Store) (id expected now : ℕ) (mutate : Order → Result Order) (y : Order)
    : Type 0 where
  pub was : Order
  pub draft : Order
  pub found : get s.orders id ≡ some was
  pub version : was.version ≡ expected
  pub drafted : mutate was ≡ ok draft
  pub gives : bumped was.version now draft ≡ y

pub update_order-eq-ok :
    (id expected now : ℕ) (mutate : Order → Result Order) (s : Store) (y : Order)
    → (update_order id expected mutate now s).0 ≡ ok y
    → Changed s id expected now mutate y
unfolding update_order load_order
update_order-eq-ok id expected now mutate s y h = elim (Option-cases (get s.orders id)) [
  | inl e ↦ ground arith
  | inr (x, e) ↦ elim (Bool-cases (x.version == expected)) [
    | inr f ↦ ground arith
    | inl t ↦ elim (Result-cases (mutate x)) [
      | inr (c, f) ↦ ground arith
      | inl (d, g) ↦ record {
        was = x;
        draft = d;
        found = e;
        version = (==_iff x.version expected).0 t;
        drafted = g;
        gives = ground arith;
      }
    ]
  ]
]

front_of_house-Step : (x y : OrderStatus) → front_of_house x y ≡ true → Step x y
front_of_house-Step pending pending h = cc
front_of_house-Step pending in_preparation h = start
front_of_house-Step pending completed h = cc
front_of_house-Step pending delivered h = cc
front_of_house-Step pending cancelled h = cc
front_of_house-Step in_preparation pending h = cc
front_of_house-Step in_preparation in_preparation h = cc
front_of_house-Step in_preparation completed h = finish
front_of_house-Step in_preparation delivered h = cc
front_of_house-Step in_preparation cancelled h = cc
front_of_house-Step completed pending h = cc
front_of_house-Step completed in_preparation h = cc
front_of_house-Step completed completed h = cc
front_of_house-Step completed delivered h = deliver
front_of_house-Step completed cancelled h = cc
front_of_house-Step delivered pending h = cc
front_of_house-Step delivered in_preparation h = cc
front_of_house-Step delivered completed h = cc
front_of_house-Step delivered delivered h = cc
front_of_house-Step delivered cancelled h = cc
front_of_house-Step cancelled pending h = cc
front_of_house-Step cancelled in_preparation h = cc
front_of_house-Step cancelled completed h = cc
front_of_house-Step cancelled delivered h = cc
front_of_house-Step cancelled cancelled h = cc

flow-front :
    (rs : List Role) (x y : OrderStatus)
    → some_of (λ r. role_status_flow r x y) rs ≡ true
    → front_of_house x y ≡ true
unfolding role_status_flow
flow-front [] x y h = cc
flow-front (r ∷ rs) x y h = ground (arith, flow-front rs x y)

module _ (user : User) (now : ℕ) where
  pub move_status-Step :
      (next : OrderStatus) (x d : Order)
      → move_status user next now x ≡ ok d
      → Step x.status d.status × (d.status ≡ next) × (d.items ≡ x.items) × (d.subtotal ≡ x.subtotal)
  unfolding move_status
  move_status-Step next x d h = elim (Bool-cases (branch_matches user x.branch)) [
    | inr f ↦ ground arith
    | inl b ↦ elim (Bool-cases (some_of (λ r. role_status_flow r x.status next) user.roles)) [
      | inr f ↦ ground arith
      | inl t ↦
          let to : d.status ≡ next = ground arith in
          (
            subst (Step x.status) (sym to)
                (front_of_house-Step x.status next (flow-front user.roles x.status next t)),
            to,
            ground arith,
            ground arith,
          )
    ]
  ]

  pub mark_cancelled-Step :
      (by : Option ℕ) (reason : Text) (x d : Order)
      → mark_cancelled user by reason now x ≡ ok d
      → Step x.status d.status × (d.status ≡ cancelled)
  unfolding mark_cancelled
  mark_cancelled-Step by reason x d h = elim (Bool-cases (is_cancelled x.status)) [
    | inl t ↦ ground arith
    | inr f ↦
        let to : d.status ≡ cancelled = ground arith in
        (subst (Step x.status) (sym to) (cancel x.status f), to)
  ]

pub check_stock-store :
    (link : Bool) (id : ℕ) (t : Option Trigger) (s : Store) → (check_stock link id t s).1 ≡ s
unfolding check_stock load_order
check_stock-store link id none s = refl
check_stock-store link id (some t) s = ground arith

pub transition_order-Changed :
    (link : Bool) (user : User) (id expected : ℕ) (next : OrderStatus) (now : ℕ) (s : Store)
    (y : Order)
    → (transition_order link user id expected next now s).0 ≡ ok y
    → Changed s id expected now (move_status user next now) y
unfolding transition_order
transition_order-Changed link user id expected next now s y h =
    let t = deduction_trigger s.stock.trigger_policy next in
    let kept = check_stock-store link id t s in
    elim (Bool-cases (can user transition_order_status)) [
      | inr f ↦ ground arith
      | inl a ↦ elim (Result-cases (check_stock link id t s).0) [
        | inr (c, f) ↦ ground arith
        | inl (_, b) ↦
            elim (Result-cases (update_order id expected (move_status user next now) now s).0) [
              | inr (c, f) ↦ ground arith
              | inl (o, g) ↦
                  let s2 = (update_order id expected (move_status user next now) now s).1 in
                  elim (Result-cases (take_stock link user o t now s2).0) [
                    | inr (c, f) ↦ ground arith
                    | inl (_, e) ↦
                        let same : o ≡ y = ground arith in
                        update_order-eq-ok id expected now _ s y (g ∙ ap ok same)
                  ]
            ]
      ]
    ]
