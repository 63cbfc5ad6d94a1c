-- ===== src/Billing/Payments/Preserve/Refund.antt =====
-- A refund that `check_refund` lets through keeps the ledger sound.
use restaurant_pos.Base.{
  ℕ, ◌+◌, ◌≤◌, ◌≡◌, refl, inl, inr, true, false, ◌&&◌, Option, some, List, [], ◌∷◌, ◌++◌, arith,
  ◌==◌, All, All-append, All-both, Bool-cases, All-weaken, sym, subst,
}
use restaurant_pos.Base.Text.{Text}
use restaurant_pos.Base.Result.{ok}
use restaurant_pos.Billing.Types.{Payment, Reference, is_payment}
use restaurant_pos.Billing.Payments.Ledger.{
  find_payment, refunded_of, already_reversed, check_refund, refund_entry,
}
use restaurant_pos.Billing.Payments.Sound.{Sound, Covered, Linked, Distinct, has_payment, credit}
use restaurant_pos.Billing.Payments.Preserve.{
  refunded_of-append, has_payment-append, Distinct-append,
}

-- The payment that is found has the id and stands in the ledger.
pub find_payment_found :
    (ps : List Payment) (id : ℕ) (o : Payment)
    → find_payment ps id ≡ some o
    → (o.id ≡ id) × (is_payment o.kind ≡ true) × (has_payment ps (some id) ≡ true)
unfolding find_payment
find_payment_found [] id o h = cc
find_payment_found (p ∷ ps) id o h = ground (arith, find_payment_found ps id o)

pub Same : Payment → Payment → Type 0
Same o p = (p.id == o.id && is_payment p.kind) ≡ true → p ≡ o

none_has : (ps : List Payment) (o : Payment) → has_payment ps (some o.id) ≡ false → All (Same o) ps
unfolding Same
none_has [] o h = tt
none_has (p ∷ ps) o h = (λ k. ground arith, none_has ps o (ground arith))

-- In a distinct ledger it is the only payment with the id.
pub find_payment_only :
    (ps : List Payment) (id : ℕ) (o : Payment)
    → Distinct ps
    → find_payment ps id ≡ some o
    → All (Same o) ps
unfolding find_payment Same
find_payment_only [] id o d h = tt
find_payment_only (p ∷ ps) id o d h = elim (Bool-cases (p.id == id && is_payment p.kind)) [
  | inl t ↦
      let same : p ≡ o = ground arith in
      (
        λ k. same,
        none_has ps o (subst (λ v. has_payment ps (some v.id) ≡ false) same (d.0 (ground arith))),
      )
  | inr f ↦
      let found : find_payment ps id ≡ some o = ground arith in
      let facts = find_payment_found ps id o found in
      (λ k. ground arith, find_payment_only ps id o d.1 found)
]

module _ (ps : List Payment) (pid : ℕ) (o : Payment) (amount : ℕ) where
  room :
      check_refund o ps amount ≡ ok tt
      → refunded_of o.id ps ≤ credit o
      → refunded_of o.id ps + amount ≤ credit o
  unfolding check_refund already_reversed
  room fits le = ground arith

  Covered-refund :
      (e : Payment)
      → e.linked ≡ some o.id
      → e.amount ≡ amount
      → check_refund o ps amount ≡ ok tt
      → (p : Payment) → Covered ps p × Same o p
      → Covered (ps ++ e ∷ []) p
  unfolding Same
  Covered-refund e l a fits p (c, same) k =
      let (le, fine) = c k in
      (
        rw (refunded_of-append p.id ps e, l, a)
            (elim (Bool-cases (p.id == o.id)) [
              | inl t ↦
                  let it : o ≡ p = sym (same (ground arith)) in
                  ground (
                    arith,
                    subst (λ v. refunded_of v.id ps + amount ≤ credit v) it
                        (room fits (subst (λ v. refunded_of v.id ps ≤ credit v) (sym it) le)),
                  )
              | inr f ↦ ground arith
            ]),
        fine,
      )

pub refund_entry-Sound :
    (ps : List Payment) (pid id amount now actor : ℕ) (o : Payment) (reason : Text)
    (r : Option Reference)
    → find_payment ps pid ≡ some o
    → check_refund o ps amount ≡ ok tt
    → Sound ps
    → Sound (ps ++ refund_entry o id amount now actor reason r ∷ [])
unfolding refund_entry
refund_entry-Sound ps pid id amount now actor o reason r found fits s =
    let e = refund_entry o id amount now actor reason r in
    let qs : List Payment = ps ++ e ∷ [] in
    let facts = find_payment_found ps pid o found in
    record {
      covered =
          All-append (Covered qs) ps (e ∷ [])
            (All-weaken (λ p. Covered ps p × Same o p) (Covered qs) ps
              (Covered-refund ps pid o amount e refl refl fits)
              (All-both (Covered ps) (Same o) ps s.covered
                (find_payment_only ps pid o s.distinct found)))
            ((λ k. cc), tt);
      linked =
          All-append (Linked qs) ps (e ∷ [])
            (All-weaken (Linked ps) (Linked qs) ps (λ p l k. has_payment-append ps e p.linked (l k))
              s.linked)
            ((λ k. has_payment-append ps e (some o.id) (rw facts.0 facts.2)), tt);
      distinct = Distinct-append ps e s.distinct (λ k. cc);
    }
