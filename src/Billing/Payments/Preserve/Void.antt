-- ===== src/Billing/Payments/Preserve/Void.antt =====
-- A void that `check_void` lets through keeps the ledger sound.
use restaurant_pos.Base.{
  ℕ, ◌≡◌, refl, inl, inr, false, ◌&&◌, Option, none, some, List, [], ◌∷◌, ◌++◌, arith, ◌==◌, All,
  All-append, Bool-cases, All-weaken, subst,
}
use restaurant_pos.Base.Text.{Text}
use restaurant_pos.Base.Result.{ok}
use restaurant_pos.Billing.Types.{Payment, Reference, is_payment, is_refund}
use restaurant_pos.Billing.Payments.Ledger.{
  find_payment, refunded_of, mark_voided, check_void, void_entry,
}
use restaurant_pos.Billing.Payments.Sound.{Sound, Covered, Linked, Distinct, has_payment}
use restaurant_pos.Billing.Payments.Preserve.Refund.{find_payment_found}
use restaurant_pos.Billing.Payments.Preserve.{
  refunded_of-append, has_payment-append, Distinct-append,
}

module _ (id : ℕ) where
  mark_voided-refunded_of :
      (j : ℕ) (ps : List Payment) → refunded_of j (mark_voided ps id) ≡ refunded_of j ps
  unfolding mark_voided refunded_of
  mark_voided-refunded_of j [] = refl
  mark_voided-refunded_of j (p ∷ ps) = ground (arith, mark_voided-refunded_of j ps)

  mark_voided-has_payment :
      (o : Option ℕ) (ps : List Payment) → has_payment (mark_voided ps id) o ≡ has_payment ps o
  unfolding mark_voided
  mark_voided-has_payment none ps = refl
  mark_voided-has_payment (some j) [] = refl
  mark_voided-has_payment (some j) (p ∷ ps) = ground (arith, mark_voided-has_payment (some j) ps)

  mark_voided-Distinct : (ps : List Payment) → Distinct ps → Distinct (mark_voided ps id)
  unfolding mark_voided
  mark_voided-Distinct [] d = tt
  mark_voided-Distinct (p ∷ ps) d = elim (Bool-cases (p.id == id && is_payment p.kind)) [
    | inl t ↦ rw t d
    | inr f ↦
        rw f
          ((λ k. rw (mark_voided-has_payment (some p.id) ps) (d.0 k)), mark_voided-Distinct ps d.1)
  ]

  mark_voided-Linked :
      (qs ps : List Payment) → All (Linked qs) ps → All (Linked qs) (mark_voided ps id)
  unfolding mark_voided
  mark_voided-Linked qs [] h = tt
  mark_voided-Linked qs (p ∷ ps) h = elim (Bool-cases (p.id == id && is_payment p.kind)) [
    | inl t ↦ rw t h
    | inr f ↦ rw f (h.0, mark_voided-Linked qs ps h.1)
  ]

  -- A payment that has no refund is still covered when it counts for nothing.
  mark_voided-Covered :
      (qs ps : List Payment)
      → refunded_of id qs ≡ 0
      → All (Covered qs) ps
      → All (Covered qs) (mark_voided ps id)
  unfolding mark_voided
  mark_voided-Covered qs [] z h = tt
  mark_voided-Covered qs (p ∷ ps) z h = elim (Bool-cases (p.id == id && is_payment p.kind)) [
    | inl t ↦ rw t ((λ k. ground arith), h.1)
    | inr f ↦ rw f (h.0, mark_voided-Covered qs ps z h.1)
  ]

void_entry-refunded_of :
    (j pid : ℕ) (ps : List Payment) (e : Payment)
    → is_refund e.kind ≡ false
    → refunded_of j (mark_voided ps pid ++ e ∷ []) ≡ refunded_of j ps
void_entry-refunded_of j pid ps e k =
    rw (refunded_of-append j (mark_voided ps pid) e, mark_voided-refunded_of pid j ps)
      (ground arith)

not_refunded : (o : Payment) (ps : List Payment) → check_void o ps ≡ ok tt → refunded_of o.id ps ≡ 0
unfolding check_void
not_refunded o ps fits = ground arith

pub void_entry-Sound :
    (ps : List Payment) (pid id now actor : ℕ) (o : Payment) (reason : Text) (r : Option Reference)
    → find_payment ps pid ≡ some o
    → check_void o ps ≡ ok tt
    → Sound ps
    → Sound (mark_voided ps pid ++ void_entry o id now actor reason r ∷ [])
unfolding void_entry
void_entry-Sound ps pid id now actor o reason r found fits s =
    let e = void_entry o id now actor reason r in
    let ms = mark_voided ps pid in
    let qs : List Payment = ms ++ e ∷ [] in
    let facts = find_payment_found ps pid o found in
    record {
      covered =
          All-append (Covered qs) ms (e ∷ [])
            (mark_voided-Covered pid qs ps
              (rw (void_entry-refunded_of pid pid ps e refl)
                (subst (λ v. refunded_of v ps ≡ 0) facts.0 (not_refunded o ps fits)))
              (All-weaken (Covered ps) (Covered qs) ps
                (λ p c k.
                  let (le, fine) = c k in (rw (void_entry-refunded_of p.id pid ps e refl) le, fine))
                s.covered))
            ((λ k. cc), tt);
      linked =
          All-append (Linked qs) ms (e ∷ [])
            (mark_voided-Linked pid qs ps (
              All-weaken (Linked ps) (Linked qs) ps
                (λ p l k.
                  has_payment-append ms e p.linked
                    (rw (mark_voided-has_payment pid p.linked ps) (l k)))
                s.linked))
            ((λ k. cc), tt);
      distinct = Distinct-append ms e (mark_voided-Distinct pid ps s.distinct) (λ k. cc);
    }
