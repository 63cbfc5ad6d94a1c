-- ===== src/Billing/Payments/Sound.antt =====
-- The ledger of a split never pays back more than it took: the invariant that payments, refunds and
-- voids keep, and that the amount paid is then never negative.
use restaurant_pos.Base.{
  ℕ, ◌+◌, ◌≤◌, ◌≡◌, refl, Bool, true, false, ◌&&◌, Option, none, some, List, [], ◌∷◌, arith, ◌==◌,
  if◌then◌else◌, some_of, All,
}
use restaurant_pos.Base.Int.{ℤ, pos_part, neg_part, +ℤ_parts}
use restaurant_pos.Billing.Types.{Payment, PaymentStatus, failed, is_payment, is_refund, is_voided}
use restaurant_pos.Billing.Splits.{amount_paid, payment_contribution}
use restaurant_pos.Billing.Payments.Ledger.{refunded_of}

abbrev pub is_failed : PaymentStatus → Bool
is_failed failed = true
is_failed _ = false

-- What an entry of kind payment still counts for.
abbrev pub credit : Payment → ℕ
credit p = if is_voided p.status then 0 else p.amount

-- The refunds of a payment are covered by it, in the ledger `qs`.
abbrev pub Covered : List Payment → Payment → Type 0
Covered qs p =
    is_payment p.kind ≡ true → (refunded_of p.id qs ≤ credit p) × (is_failed p.status ≡ false)

-- Some entry of kind payment has the id.
abbrev pub has_payment : List Payment → Option ℕ → Bool
has_payment qs none = false
has_payment qs (some id) = some_of (λ q. q.id == id && is_payment q.kind) qs

-- A refund is linked to a payment of the ledger.
abbrev pub Linked : List Payment → Payment → Type 0
Linked qs p = is_refund p.kind ≡ true → has_payment qs p.linked ≡ true

-- No two entries of kind payment share an id.
abbrev pub Distinct : List Payment → Type 0
Distinct [] = Unit {0}
Distinct (p ∷ ps) = (is_payment p.kind ≡ true → has_payment ps (some p.id) ≡ false) × Distinct ps

pub record Sound (ps : List Payment) : Type 0 where
  pub covered : All (Covered ps) ps
  pub linked : All (Linked ps) ps
  pub distinct : Distinct ps

abbrev refunds : List Payment → ℕ
refunds [] = 0
refunds (p ∷ ps) = (if is_refund p.kind then p.amount else 0) + refunds ps

abbrev credits : List Payment → ℕ
credits [] = 0
credits (p ∷ ps) = (if is_payment p.kind then credit p else 0) + credits ps

-- The refunds of `qs`, summed over the payments of `ps`.
abbrev claims : List Payment → List Payment → ℕ
claims [] qs = 0
claims (p ∷ ps) qs = (if is_payment p.kind then refunded_of p.id qs else 0) + claims ps qs

claims-nil : (ps : List Payment) → claims ps [] ≡ 0
unfolding refunded_of
claims-nil [] = refl
claims-nil (p ∷ ps) = ground (arith, claims-nil ps)

-- Each refund is claimed by the payment that it is linked to.
claims-cons :
    (ps : List Payment) (q : Payment) (qs : List Payment)
    → (if is_refund q.kind && has_payment ps q.linked then q.amount else 0) + claims ps qs
      ≤ claims ps (q ∷ qs)
unfolding refunded_of
claims-cons [] q qs = ground arith
claims-cons (p ∷ ps) q qs = ground (arith, claims-cons ps q qs)

refunds-le-claims : (ps qs : List Payment) → All (Linked ps) qs → refunds qs ≤ claims ps qs
refunds-le-claims ps [] h = omega arith
refunds-le-claims ps (q ∷ qs) h = ground (arith, claims-cons ps q qs, refunds-le-claims ps qs h.1)

claims-le-credits : (ps qs : List Payment) → All (Covered qs) ps → claims ps qs ≤ credits ps
claims-le-credits [] qs h = omega arith
claims-le-credits (p ∷ ps) qs h = ground (arith, claims-le-credits ps qs h.1)

amount_paid_parts :
    (ps qs : List Payment)
    → All (Covered qs) ps
    → pos_part (amount_paid ps) + refunds ps ≡ neg_part (amount_paid ps) + credits ps
unfolding amount_paid payment_contribution
amount_paid_parts [] qs h = refl
amount_paid_parts (p ∷ ps) qs h =
    ground (arith, amount_paid_parts ps qs h.1, +ℤ_parts (payment_contribution p) (amount_paid ps))

part_of : (z : ℤ) → neg_part z ≤ pos_part z → neg_part z ≡ 0
part_of z h = ground arith

-- In a sound ledger the amount paid is not negative: refunds never exceed what was taken in.
pub Sound-nonneg : (ps : List Payment) → Sound ps → neg_part (amount_paid ps) ≡ 0
Sound-nonneg ps sound = part_of (amount_paid ps) (
    omega (
      arith,
      amount_paid_parts ps ps sound.covered,
      refunds-le-claims ps ps sound.linked,
      claims-le-credits ps ps sound.covered,
    ))
