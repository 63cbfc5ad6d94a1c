-- ===== src/Billing/Payments/Preserve.antt =====
-- Each entry that the operations post keeps the ledger sound.
pub mod Refund
pub mod Void
use restaurant_pos.Base.{
  ℕ, zero, suc, ◌+◌, ◌-◌, ◌≤◌, ◌≡◌, refl, inl, inr, Bool, true, false, not, ◌&&◌, ◌||◌, Option,
  none, some, List, [], ◌∷◌, ◌++◌, arith, ◌==◌, ==_iff, if◌then◌else◌, find, some_of, All,
  All-append, Bool-cases, All-weaken, sym, ◌∙◌,
}
use restaurant_pos.Base.Text.{Text}
use restaurant_pos.Base.Result.{Result, ok, err}
use restaurant_pos.Billing.Types.{
  Payment, PaymentMethod, PaymentStatus, EntryType, payment, refund, void, voided, Reference,
  is_payment, is_refund, is_voided, is_void_entry,
}
use restaurant_pos.Billing.Payments.Ledger.{
  links_to, find_payment, refunded_of, already_reversed, check_refund, check_void, mark_voided,
  new_payment, refund_entry, void_entry,
}
use restaurant_pos.Billing.Payments.Sound.{
  Sound, Covered, Linked, Distinct, has_payment, credit, is_failed,
}

pub refunded_of-append :
    (id : ℕ) (ps : List Payment) (e : Payment)
    → refunded_of id (ps ++ e ∷ [])
      ≡ refunded_of id ps + (if links_to id e.linked && is_refund e.kind then e.amount else 0)
unfolding refunded_of
refunded_of-append id [] e = omega arith
refunded_of-append id (p ∷ ps) e = omega (arith, refunded_of-append id ps e)

pub has_payment-append :
    (ps : List Payment) (e : Payment) (o : Option ℕ)
    → has_payment ps o ≡ true
    → has_payment (ps ++ e ∷ []) o ≡ true
has_payment-append ps e none h = cc
has_payment-append [] e (some id) h = cc
has_payment-append (p ∷ ps) e (some id) h = ground (arith, has_payment-append ps e (some id))

has_payment-append_not :
    (ps : List Payment) (e : Payment) (id : ℕ)
    → has_payment ps (some id) ≡ false
    → (e.id == id && is_payment e.kind) ≡ false
    → has_payment (ps ++ e ∷ []) (some id) ≡ false
has_payment-append_not [] e id h k = ground arith
has_payment-append_not (p ∷ ps) e id h k = ground (arith, has_payment-append_not ps e id)

-- No entry has the id or is linked to it.
abbrev pub Fresh : ℕ → List Payment → Type 0
Fresh id ps = All (λ p. ((p.id == id) ≡ false) × (links_to id p.linked ≡ false)) ps

Fresh-refunded_of : (id : ℕ) (ps : List Payment) → Fresh id ps → refunded_of id ps ≡ 0
unfolding refunded_of
Fresh-refunded_of id [] f = refl
Fresh-refunded_of id (p ∷ ps) f = ground (arith, Fresh-refunded_of id ps f.1)

Fresh-has_payment : (id : ℕ) (ps : List Payment) → Fresh id ps → has_payment ps (some id) ≡ false
Fresh-has_payment id [] f = refl
Fresh-has_payment id (p ∷ ps) f = ground (arith, Fresh-has_payment id ps f.1)

pub Distinct-append :
    (ps : List Payment) (e : Payment)
    → Distinct ps
    → (is_payment e.kind ≡ true → has_payment ps (some e.id) ≡ false)
    → Distinct (ps ++ e ∷ [])
Distinct-append [] e d new = ((λ h. refl), tt)
Distinct-append (p ∷ ps) e d new = (
  (λ h. has_payment-append_not ps e p.id (d.0 h) (ground (arith, ==_iff p.id e.id))),
  Distinct-append ps e d.1 (λ h. ground (arith, new h)),
)

-- A payment under a new id.
pub new_payment-Sound :
    (ps : List Payment) (id amount : ℕ) (m : PaymentMethod) (at actor : ℕ) (r : Option Reference)
    → Fresh id ps
    → Sound ps
    → Sound (ps ++ new_payment id amount m at actor r ∷ [])
unfolding new_payment
new_payment-Sound ps id amount m at actor r f s =
    let e = new_payment id amount m at actor r in
    let qs : List Payment = ps ++ e ∷ [] in
    record {
      covered =
          All-append (Covered qs) ps (e ∷ [])
            (All-weaken (Covered ps) (Covered qs) ps
              (λ p c k.
                let (le, fine) = c k in
                (rw (refunded_of-append p.id ps e) (omega (arith, le)), fine))
              s.covered)
            (
              (λ k. (
                rw (refunded_of-append id ps e) (omega (arith, Fresh-refunded_of id ps f)),
                refl,
              )),
              tt,
            );
      linked =
          All-append (Linked qs) ps (e ∷ [])
            (All-weaken (Linked ps) (Linked qs) ps (λ p l k. has_payment-append ps e p.linked (l k))
              s.linked)
            ((λ k. cc), tt);
      distinct = Distinct-append ps e s.distinct (λ k. Fresh-has_payment id ps f);
    }
