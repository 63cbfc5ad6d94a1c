-- ===== src/Orders/Priced.antt =====
-- The prices of an order: each line is its quantity at its unit price, the subtotal their sum.
use restaurant_pos.Base.{
  ℕ, ◌≡◌, refl, sym, subst, inl, inr, not, List, [], ◌∷◌, ◌==◌, All, All-append, All-select, arith,
  Bool-cases,
}
use restaurant_pos.Base.Result.{Result-cases, ok, ok-injective}
use restaurant_pos.Money.{gross_of}
use restaurant_pos.Auth.Policy.{User}
use restaurant_pos.Orders.Types.{Order, OrderItem, is_delivered}
use restaurant_pos.Orders.Update.{recalc_subtotal}
use restaurant_pos.Orders.Edit.{
  EditInput, ModifyInput, add_each, modify_item, modify_first, with_modified, modify_each,
  remove_each, apply_edit,
}

unfoldable pub LinePriced : OrderItem → Type 0
LinePriced i = i.line_total ≡ gross_of i.quantity i.unit_price

unfoldable pub Priced : Order → Type 0
Priced o = All LinePriced o.items × (o.subtotal ≡ recalc_subtotal o.items)

add_each-items :
    (user : User) (now : ℕ) (is : List OrderItem) (o : Order)
    → All LinePriced o.items
    → All LinePriced is
    → All LinePriced (add_each user now is o).items
unfolding add_each
add_each-items user now [] o h k = h
add_each-items user now (i ∷ is) o h k =
    add_each-items user now is _ (All-append LinePriced o.items (i ∷ []) h (k.0, tt)) k.1

modify_item-LinePriced : (p : ModifyInput) (i j : OrderItem) → modify_item p i ≡ ok j → LinePriced j
unfolding modify_item LinePriced
modify_item-LinePriced p i j h = ground arith

modify_first-LinePriced :
    (p : ModifyInput) (is js : List OrderItem)
    → All LinePriced is
    → modify_first p is ≡ ok js
    → All LinePriced js
unfolding modify_first
modify_first-LinePriced p [] js h e = cc
modify_first-LinePriced p (i ∷ is) js h e = elim (Bool-cases (i.id == p.item)) [
  | inl t ↦ elim (Result-cases (modify_item p i)) [
    | inr (z, f) ↦ ground arith
    | inl (j, f) ↦
        let same : j ∷ is ≡ js = ground arith in
        subst (All LinePriced) same (modify_item-LinePriced p i j f, h.1)
  ]
  | inr n ↦ elim (Result-cases (modify_first p is)) [
    | inr (z, f) ↦ ground arith
    | inl (ks, f) ↦
        let same : i ∷ ks ≡ js = ground arith in
        subst (All LinePriced) same (h.0, modify_first-LinePriced p is ks h.1 f)
  ]
]

module _ (user : User) (input : EditInput) (now : ℕ) where
  modify_each-LinePriced :
      (ps : List ModifyInput) (o d : Order)
      → All LinePriced o.items
      → modify_each user input now ps o ≡ ok d
      → All LinePriced d.items
  unfolding modify_each
  modify_each-LinePriced [] o d h e = subst (λ z. All LinePriced z.items) (ok-injective e) h
  modify_each-LinePriced (p ∷ ps) o d h e = elim (Result-cases (modify_first p o.items)) [
    | inr (z, f) ↦ ground arith
    | inl (js, f) ↦
        modify_each-LinePriced ps (with_modified user input now p js o) d
          (modify_first-LinePriced p o.items js h f) (ground arith)
  ]

  pub apply_edit-Priced :
      (added : List OrderItem) (o d : Order)
      → Priced o
      → All LinePriced added
      → apply_edit user input added now o ≡ ok d
      → Priced d
  unfolding apply_edit remove_each Priced
  apply_edit-Priced added o d h k e = elim (Bool-cases (not (is_delivered o.status))) [
    | inr f ↦ ground arith
    | inl a ↦
        elim (Result-cases
          (modify_each user input now input.modify_items (add_each user now added o))) [
            | inr (z, f) ↦ ground arith
            | inl (c, f) ↦
                let end : d ≡ (
                    let x = remove_each user input now c in
                    record x { subtotal = recalc_subtotal x.items }) =
                  ground arith in
                let lines =
                  modify_each-LinePriced input.modify_items (add_each user now added o) c
                    (add_each-items user now added o h.0 k) f in
                subst Priced (sym end) (All-select LinePriced _ c.items lines, refl)
          ]
  ]
