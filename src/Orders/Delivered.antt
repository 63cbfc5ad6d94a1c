-- ===== src/Orders/Delivered.antt =====
-- An order can be brought to its end.
use restaurant_pos.Base.{
  ℕ, ◌+◌, ◌≡◌, refl, inl, inr, ◌∙◌, Bool, true, none, some, some_of, arith, eq_refl, ◌==◌,
}
use restaurant_pos.Base.Table.{get, get-put_self}
use restaurant_pos.Base.Result.{ok, Result-cases}
use restaurant_pos.Store.{Store}
use restaurant_pos.Auth.Policy.{User, can, transition_order_status}
use restaurant_pos.Inventory.Types.{manual}
use restaurant_pos.Orders.Types.{Order, OrderStatus, pending, in_preparation, completed, delivered}
use restaurant_pos.Orders.Update.{update_order, load_order, branch_matches, bumped}
use restaurant_pos.Kds.Board.{sync_order_into_kds}
use restaurant_pos.Orders.Deduct.{deduction_trigger}
use restaurant_pos.Orders.Transition.{
  transition_order, move_status, check_stock, take_stock, role_status_flow, front_of_house,
}

module _ (link : Bool) (user : User) (id : ℕ) where
  -- The user may move the stored order from one status to the next, and no stock is drawn on.
  pub record Ready (s : Store) (version : ℕ) (from next : OrderStatus) : Type 0 where
    pub order : Order
    pub found : get s.orders id ≡ some order
    pub at_version : order.version ≡ version
    pub status : order.status ≡ from
    pub matches : branch_matches user order.branch ≡ true
    pub no_trigger : deduction_trigger s.stock.trigger_policy next ≡ none

  -- What a transition leaves when it goes through.
  pub record Moved (s : Store) (version now : ℕ) (from next : OrderStatus)
      (r : Ready s version from next) : Type 0 where
    pub order : Order
    pub returned : (transition_order link user id version next now s).0 ≡ ok order
    pub stored : get (transition_order link user id version next now s).1.orders id ≡ some order
    pub status : order.status ≡ next
    pub next_version : order.version ≡ version + 1
    pub branch : order.branch ≡ r.order.branch
    pub policy :
        (transition_order link user id version next now s).1.stock.trigger_policy
        ≡ s.stock.trigger_policy

  step :
      (s : Store) (version now : ℕ) (from next : OrderStatus)
      → can user transition_order_status ≡ true
      → some_of (λ r. role_status_flow r from next) user.roles ≡ true
      → (r : Ready s version from next) → Moved s version now from next r
  unfolding transition_order update_order load_order move_status check_stock take_stock
      sync_order_into_kds
  step s version now from next may flow r =
      let flows : some_of (λ z. role_status_flow z r.order.status next) user.roles ≡ true =
        rw r.status flow in
      let same : (r.order.version == version) ≡ true = rw r.at_version (eq_refl version) in
      elim (Result-cases (move_status user next now r.order)) [
        | inr (z, e) ↦ absurd (ground (arith, r.matches, flows))
        | inl (d, e) ↦
            let kept = get-put_self s.orders id (bumped r.order.version now d) in
            record {
              order = bumped r.order.version now d;
              returned = ground (arith, r.found, r.no_trigger);
              stored = ground (arith, r.found, r.no_trigger, kept);
              status = ground (arith, r.matches, flows);
              next_version = ground (arith, r.at_version);
              branch = ground (arith, r.matches, flows);
              policy = ground (arith, r.found, r.no_trigger);
            }
      ]

  -- The store after the steps of an order that is served from its first version
  unfoldable pub started : Store → ℕ → ℕ → Store
  unfolding transition_order
  started s version now = (transition_order link user id version in_preparation now s).1

  unfoldable pub finished : Store → ℕ → ℕ → Store
  unfolding started transition_order
  finished s version now =
      (transition_order link user id (version + 1) completed now (started s version now)).1

  no_trigger : (next : OrderStatus) → deduction_trigger manual next ≡ none
  unfolding deduction_trigger
  no_trigger next = refl

  -- A pending order of the user's branch can always be served: where stock is deducted by hand, a
  -- user who may change statuses and one of whose roles serves guests takes the order through
  -- preparation and completion to delivery in three calls, each of which goes through.
  pub delivered_in_three :
      (s : Store) (o : Order) (now : ℕ)
      → can user transition_order_status ≡ true
      → ((x y : OrderStatus)
          → front_of_house x y ≡ true
          → some_of (λ r. role_status_flow r x y) user.roles ≡ true)
      → get s.orders id ≡ some o
      → o.status ≡ pending
      → branch_matches user o.branch ≡ true
      → s.stock.trigger_policy ≡ manual
      → (y : Order) × ((transition_order link user id
            (o.version + 2)
            delivered
            now
            (finished s o.version now)).0
          ≡ ok y)
        × (y.status ≡ delivered)
        × (y.version ≡ o.version + 3)
  unfolding started finished
  delivered_in_three s o now may flow found at matches policy =
      let r1 : Ready s o.version pending in_preparation = record {
        order = o;
        found = found;
        at_version = refl;
        status = at;
        matches = matches;
        no_trigger = rw policy (no_trigger in_preparation);
      } in
      let m1 =
        step s o.version now pending in_preparation may (flow pending in_preparation refl) r1 in
      let r2 : Ready (started s o.version now) (o.version + 1) in_preparation completed = record {
        order = m1.order;
        found = m1.stored;
        at_version = m1.next_version;
        status = m1.status;
        matches = rw m1.branch matches;
        no_trigger = rw (m1.policy ∙ policy) (no_trigger completed);
      } in
      let m2 =
        step (started s o.version now) (o.version + 1) now in_preparation completed may
          (flow in_preparation completed refl) r2 in
      let r3 : Ready (finished s o.version now) (o.version + 2) completed delivered = record {
        order = m2.order;
        found = m2.stored;
        at_version = omega (arith, m2.next_version);
        status = m2.status;
        matches = rw (m2.branch, m1.branch) matches;
        no_trigger = rw (m2.policy ∙ (m1.policy ∙ policy)) (no_trigger delivered);
      } in
      let m3 =
        step (finished s o.version now) (o.version + 2) now completed delivered may
          (flow completed delivered refl) r3 in
      (m3.order, m3.returned, m3.status, omega (arith, m3.next_version))
