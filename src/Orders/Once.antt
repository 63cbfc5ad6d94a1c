-- ===== src/Orders/Once.antt =====
-- The stock of an order is taken once for each item and trigger.
use restaurant_pos.Base.{
  ℕ, ◌≡◌, refl, sym, ◌∙◌, ap, inl, inr, ◌⊎◌, Bool, true, Option, some, List, [], ◌∷◌, arith, subst,
  every, Bool-cases, eq_refl,
}
use restaurant_pos.Base.Result.{Result-cases, ok, err, Error}
use restaurant_pos.Store.{Store, >>-ok, >>-err}
use restaurant_pos.Inventory.Types.{Trigger, trigger_number, Deduction}
use restaurant_pos.Inventory.Ledger.{
  MovementInput, append_stock_movement, with_movement, is_deducted, mark_deducted,
}
use restaurant_pos.Orders.Types.{Order, OrderItem}
use restaurant_pos.Orders.Deduct.{
  Requirement, deduct_requirements, deduct_item, deduct_items, requirements, deduction_of,
}

append_stock_movement-deductions :
    (input : MovementInput) (actor : Option ℕ) (now id : ℕ) (s : Store)
    → (append_stock_movement input actor now id s).1.stock.deductions ≡ s.stock.deductions
unfolding append_stock_movement with_movement
append_stock_movement-deductions input actor now id s = ground arith

module _ (link : Bool) (o : Order) (t : Trigger) (actor now : ℕ) where
  deduct_requirements-deductions :
      (i : OrderItem) (rs : List Requirement) (s : Store)
      → (deduct_requirements o i t actor now rs s).1.stock.deductions ≡ s.stock.deductions
  unfolding deduct_requirements
  deduct_requirements-deductions i [] s = refl
  deduct_requirements-deductions i (r ∷ rs) s =
      let first = append_stock_movement (deduction_of o i t r) (some actor) now 0 s in
      let kept = append_stock_movement-deductions (deduction_of o i t r) (some actor) now 0 s in
      let rest = deduct_requirements-deductions i rs first.1 in
      elim (Result-cases first.0) [
        | inl (_, e) ↦
            ap (λ r. r.1.stock.deductions)
              (>>-ok (append_stock_movement (deduction_of o i t r) (some actor) now 0)
                (deduct_requirements o i t actor now rs) s _ e)
            ∙ (rest ∙ kept)
        | inr (_, e) ↦
            ap (λ r. r.1.stock.deductions)
              (>>-err (append_stock_movement (deduction_of o i t r) (some actor) now 0)
                (deduct_requirements o i t actor now rs) s _ e)
            ∙ kept
      ]

  mark : OrderItem → Deduction
  mark i = record { order = o.id; order_item = i.id; trigger = t }

  -- An item that is deducted is left alone; one that is not is deducted and marked, or the call fails.
  deduct_item_cases :
      (i : OrderItem) (s : Store)
      → let r = deduct_item link o t actor now i s in
        ((is_deducted s.stock i.id t ≡ true) × (r ≡ (ok tt, s)))
        ⊎ ((r.1.stock.deductions ≡ s.stock.deductions) × ((e : Error) × (r.0 ≡ err e)))
        ⊎ (r.1.stock.deductions ≡ mark i ∷ s.stock.deductions)
  unfolding deduct_item mark_deducted mark
  deduct_item_cases i s = elim (Bool-cases (is_deducted s.stock i.id t)) [
    | inl h ↦ inl (h, ground arith)
    | inr h ↦ elim (Result-cases (requirements link s.stock i)) [
      | inr (e, f) ↦ inr (inl (ground arith, (e, ground arith)))
      | inl (rs, f) ↦
          let kept = deduct_requirements-deductions i rs s in
          elim (Result-cases (deduct_requirements o i t actor now rs s).0) [
            | inr (e, g) ↦ inr (inl (ground arith, (e, ground arith)))
            | inl (_, g) ↦ inr (inr (ground arith))
          ]
    ]
  ]

  -- A deduction that is recorded stays recorded.
  deduct_item-keeps :
      (i : OrderItem) (s : Store) (j : ℕ)
      → is_deducted s.stock j t ≡ true
      → is_deducted (deduct_item link o t actor now i s).1.stock j t ≡ true
  unfolding is_deducted
  deduct_item-keeps i s j h = elim (deduct_item_cases i s) [
    | inl (_, e) ↦ rw e h
    | inr (inl (e, _)) ↦ rw e h
    | inr (inr e) ↦ rw e (ground (arith, h))
  ]

  deduct_item-marks :
      (i : OrderItem) (s : Store)
      → (deduct_item link o t actor now i s).0 ≡ ok tt
      → is_deducted (deduct_item link o t actor now i s).1.stock i.id t ≡ true
  unfolding is_deducted mark
  deduct_item-marks i s h = elim (deduct_item_cases i s) [
    | inl (d, e) ↦ rw e d
    | inr (inl (_, (c, f))) ↦ ground arith
    | inr (inr e) ↦ rw e (ground (arith, eq_refl i.id, eq_refl (trigger_number t)))
  ]

  deduct_items-keeps :
      (is : List OrderItem) (s : Store) (j : ℕ)
      → is_deducted s.stock j t ≡ true
      → is_deducted (deduct_items link o t actor now is s).1.stock j t ≡ true
  unfolding deduct_items
  deduct_items-keeps [] s j h = h
  deduct_items-keeps (i ∷ is) s j h =
      let first = deduct_item link o t actor now i s in
      let kept = deduct_item-keeps i s j h in
      elim (Result-cases first.0) [
        | inl (_, e) ↦
            ap (λ r. is_deducted r.1.stock j t)
              (>>-ok (deduct_item link o t actor now i) (deduct_items link o t actor now is) s _ e)
            ∙ deduct_items-keeps is first.1 j kept
        | inr (_, e) ↦
            ap (λ r. is_deducted r.1.stock j t)
              (>>-err (deduct_item link o t actor now i) (deduct_items link o t actor now is) s _ e)
            ∙ kept
      ]

  deduct_items-marks :
      (is : List OrderItem) (s : Store)
      → (deduct_items link o t actor now is s).0 ≡ ok tt
      → every (λ i. is_deducted (deduct_items link o t actor now is s).1.stock i.id t) is ≡ true
  unfolding deduct_items
  deduct_items-marks [] s h = refl
  deduct_items-marks (i ∷ is) s h =
      let first = deduct_item link o t actor now i s in
      elim (Result-cases first.0) [
        | inl (_, e) ↦
            let on =
              >>-ok (deduct_item link o t actor now i) (deduct_items link o t actor now is) s _ e in
            let done = sym (ap (λ r. r.0) on) ∙ h in
            subst (λ r. every (λ x. is_deducted r.1.stock x.id t) (i ∷ is) ≡ true) (sym on)
              (ground (
                arith,
                deduct_items-keeps is first.1 i.id (deduct_item-marks i s e),
                deduct_items-marks is first.1 done,
              ))
        | inr (x, e) ↦
            let off =
              >>-err (deduct_item link o t actor now i) (deduct_items link o t actor now is) s x
                e in
            let bad = sym (ap (λ r. r.0) off) ∙ h in ground arith
      ]

  deduct_items-done :
      (is : List OrderItem) (s : Store)
      → every (λ i. is_deducted s.stock i.id t) is ≡ true
      → deduct_items link o t actor now is s ≡ (ok tt, s)
  unfolding deduct_items deduct_item
  deduct_items-done [] s h = refl
  deduct_items-done (i ∷ is) s h =
      let first : deduct_item link o t actor now i s ≡ (ok tt, s) = ground arith in
      let on =
        >>-ok (deduct_item link o t actor now i) (deduct_items link o t actor now is) s tt
          (ap (λ r. r.0) first) in
      on
      ∙ (ap (λ r. deduct_items link o t actor now is r.1) first
          ∙ deduct_items-done is s (ground arith))

-- When the deduction of an order goes through, each of its items is marked as deducted under the
-- trigger, and a second deduction under that trigger goes through without changing anything.
pub deduct_items_once :
    (link : Bool) (o : Order) (t : Trigger) (actor now again : ℕ) (s : Store)
    → (deduct_items link o t actor now o.items s).0 ≡ ok tt
    → let after = (deduct_items link o t actor now o.items s).1 in
      (every (λ i. is_deducted after.stock i.id t) o.items ≡ true)
      × (deduct_items link o t actor again o.items after ≡ (ok tt, after))
deduct_items_once link o t actor now again s h =
    let marked = deduct_items-marks link o t actor now o.items s h in
    (marked, deduct_items-done link o t actor again o.items _ marked)
