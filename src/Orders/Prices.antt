-- ===== src/Orders/Prices.antt =====
-- The prices of the stored orders: every operation on orders keeps them in step with their lines.
pub mod Edit
pub mod Cancel
pub mod Move
pub mod Runs
use restaurant_pos.Base.{
  ℕ, ◌≡◌, refl, sym, ◌∙◌, ap, subst, inl, inr, Bool, true, false, not, Option, none, some, List, [],
  ◌∷◌, ◌==◌, ==_iff, All, All-select, select, find, ◌||◌, if◌then◌else◌, arith, Bool-cases,
  Option-cases,
}
use restaurant_pos.Base.Text.{Text, trim}
use restaurant_pos.Base.Table.{Table, get, put, get-put_self, get-put_ne}
use restaurant_pos.Base.Result.{
  Error, Result, Result-cases, ok, err, check, or_error, order_not_found, version_conflict,
  forbidden, other_branch, prepared_items, reason_required,
}
use restaurant_pos.Store.{M, Store, pure, gets, lift, modify, ◌>>=◌, ◌>>◌, AuditAction}
use restaurant_pos.Store.Kept.{Keeps, Keeps-bind, Keeps-then, Keeps-lift, Keeps-modify}
use restaurant_pos.Auth.Policy.{User, can, edit_order, void_prepared_items}
use restaurant_pos.Billing.Payments.Reverse.{is_blank}
use restaurant_pos.Menu.Types.{Menu}
use restaurant_pos.Billing.Types.{Bill}
use restaurant_pos.Billing.Update.{assert_bill_editable, update_bill}
use restaurant_pos.Billing.Access.{record_audit_event, save_bill}
use restaurant_pos.Billing.Editing.Items.{remove_voided_item}
use restaurant_pos.Kds.Board.{sync_order_into_kds}
use restaurant_pos.Orders.Types.{Order, OrderItem, is_cancelled}
use restaurant_pos.Orders.Update.{load_order, update_order, bumped, branch_matches, recalc_subtotal}
use restaurant_pos.Orders.Cancel.{
  check_bill, remove_from_bill, cancel_order, carry_out_cancel, mark_cancelled, drop_item,
  void_order_item, carry_out_void, check_session, remove_one,
}
use restaurant_pos.Orders.Edit.{
  EditInput, apply_edit, carry_out_edit, edit_order_before_payment, remove_ids_from_bill,
}
use restaurant_pos.Orders.Built.{build_order_items-LinePriced}
use restaurant_pos.Orders.Priced.{LinePriced, Priced, apply_edit-Priced}

unfoldable pub OrdersPriced : Table Order → Type 0
OrdersPriced t = (id : ℕ) (o : Order) → get t id ≡ some o → Priced o

-- Every stored order has a subtotal that is the sum of its lines, each at its quantity and price.
abbrev pub AllPriced : Store → Type 0
AllPriced s = OrdersPriced s.orders

pub put-OrdersPriced :
    (t : Table Order) (id : ℕ) (o : Order) → OrdersPriced t → Priced o → OrdersPriced (put t id o)
unfolding OrdersPriced
put-OrdersPriced t id o h p j x e = elim (Bool-cases (j == id)) [
  | inl s ↦
      let same : j ≡ id = (==_iff j id).0 s in
      let at : o ≡ x = ground (arith, get-put_self t id o) in subst Priced at p
  | inr f ↦ let other = get-put_ne t j id o (ground arith) in h j x (ground arith)
]

pub update_order-AllPriced :
    (id expected now : ℕ) (mutate : Order → Result Order)
    → ((o d : Order) → Priced o → mutate o ≡ ok d → Priced d)
    → Keeps AllPriced (update_order id expected mutate now)
unfolding update_order load_order OrdersPriced Priced LinePriced Keeps
update_order-AllPriced id expected now mutate f s h = elim (Option-cases (get s.orders id)) [
  | inl e ↦ unchanged (ground arith)
  | inr (o, e) ↦ elim (Bool-cases (o.version == expected)) [
    | inr n ↦ unchanged (ground arith)
    | inl t ↦ elim (Result-cases (mutate o)) [
      | inr (z, g) ↦ unchanged (ground arith)
      | inl (d, g) ↦
          let after : (update_order id expected mutate now s).1.orders
              ≡ put s.orders id (bumped o.version now d) =
            ground arith in
          subst OrdersPriced (sym after)
            (put-OrdersPriced s.orders id (bumped o.version now d) h (f o d (h id o e) g))
    ]
  ]
]
  where
    unchanged :
        (update_order id expected mutate now s).1.orders ≡ s.orders
        → AllPriced (update_order id expected mutate now s).1
    unchanged same = subst OrdersPriced (sym same) h

pub remove_voided_item-AllPriced :
    (session id now : ℕ) → Keeps AllPriced (remove_voided_item session id now)
unfolding remove_voided_item save_bill Keeps
remove_voided_item-AllPriced session id now s h = subst OrdersPriced (sym same) h
  where
    same : (remove_voided_item session id now s).1.orders ≡ s.orders
    same = elim (Option-cases (get s.bills session)) [
      | inl e ↦ ground arith
      | inr (x, e) ↦ ground arith
    ]

pub remove_ids-AllPriced :
    (session : Option ℕ) (ids : List ℕ) (now : ℕ)
    → Keeps AllPriced (remove_ids_from_bill session ids now)
unfolding remove_ids_from_bill Keeps
remove_ids-AllPriced none ids now = λ s h. h
remove_ids-AllPriced (some x) [] now = λ s h. h
remove_ids-AllPriced (some x) (id ∷ ids) now =
    Keeps-then AllPriced (remove_voided_item x id now) (remove_ids_from_bill (some x) ids now)
      (remove_voided_item-AllPriced x id now) (remove_ids-AllPriced (some x) ids now)

pub remove_items-AllPriced :
    (session : Option ℕ) (is : List OrderItem) (now : ℕ)
    → Keeps AllPriced (remove_from_bill session is now)
unfolding remove_from_bill Keeps
remove_items-AllPriced none is now = λ s h. h
remove_items-AllPriced (some x) [] now = λ s h. h
remove_items-AllPriced (some x) (i ∷ is) now =
    Keeps-then AllPriced (remove_voided_item x i.id now) (remove_from_bill (some x) is now)
      (remove_voided_item-AllPriced x i.id now) (remove_items-AllPriced (some x) is now)

pub check_bill-AllPriced : (o : Order) → Keeps AllPriced (check_bill o)
unfolding check_bill Keeps
check_bill-AllPriced o s h = subst OrdersPriced (sym same) h
  where
    same : (check_bill o s).1.orders ≡ s.orders
    same = elim (Option-cases o.session) [ inl e ↦ ground arith | inr (x, e) ↦ ground arith ]

pub audit-AllPriced :
    (action : AuditAction) (user id amount now : ℕ)
    → Keeps AllPriced (record_audit_event action user id amount now)
unfolding record_audit_event Keeps
audit-AllPriced action user id amount now = λ s h. h

pub sync-AllPriced : (o : Order) (now : ℕ) → Keeps AllPriced (sync_order_into_kds o now)
unfolding sync_order_into_kds Keeps
sync-AllPriced o now = λ s h. h

pub check-AllPriced : (b : Bool) (e : Error) → Keeps AllPriced (lift (check b e))
unfolding Keeps
check-AllPriced b e = λ s h. h

pub pure-AllPriced : {A : Type 0} (a : A) → Keeps AllPriced (pure a)
unfolding Keeps
pure-AllPriced a = λ s h. h

pub load_order-AllPriced : (id : ℕ) → Keeps AllPriced (load_order id)
unfolding load_order Keeps
load_order-AllPriced id = λ s h. h

pub gets-AllPriced : {A : Type 0} (f : Store → A) → Keeps AllPriced (gets f)
unfolding Keeps
gets-AllPriced f = λ s h. h
