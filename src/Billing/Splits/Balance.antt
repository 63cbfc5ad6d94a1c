-- ===== src/Billing/Splits/Balance.antt =====
-- The state of a split follows its balance.
use restaurant_pos.Base.{ℕ, ◌<◌, ◌≡◌, refl, ◌≢◌, ◌↔◌, arith, subst, sum}
use restaurant_pos.Base.Int.{ℤ, pos, negsuc, neg_part}
use restaurant_pos.Base.Result.{ok, and_then-eq-ok, ok-injective}
use restaurant_pos.Billing.Types.{
  BillingState, unpaid, partially_paid, paid, debt, Pricing, Split, Splits,
}
use restaurant_pos.Billing.Splits.Defs.{
  Charges, charges_on, bases, balance, next_state, amount_paid, price_split,
  apply_bill_level_pricing,
}

-- The state of a split that is not overdrawn, that is, whose payments sum to zero or more: it is
-- paid exactly when nothing is left to pay; otherwise it is in debt exactly when it was in debt
-- before, and is else open or partially paid as nothing or something was paid.
pub next_state_cases :
    (previous : BillingState) (due : ℕ) (got : ℤ)
    → neg_part got ≡ 0
    → ((next_state previous due got ≡ paid) ↔ (balance due got ≡ 0))
      × ((next_state previous due got ≡ debt) ↔ ((0 < balance due got) × (previous ≡ debt)))
      × ((next_state previous due got ≡ unpaid)
          ↔ ((0 < balance due got) × (previous ≢ debt) × (got ≡ pos 0)))
      × ((next_state previous due got ≡ partially_paid)
          ↔ ((0 < balance due got) × (previous ≢ debt) × (got ≢ pos 0)))
unfolding next_state balance
next_state_cases previous due (negsuc n) h = absurd (omega arith)
next_state_cases previous due (pos n) h = (
  (λ e. ground arith, λ e. ground arith),
  (λ e. (ground arith, ground arith), λ e. ground arith),
  (λ e. (ground arith, (λ q. ground arith), ground arith), λ e. ground arith),
  (λ e. (ground arith, (λ q. ground arith), (λ q. ground arith)), λ e. ground arith),
)

-- What pricing computes for a split from its payments, and what it leaves alone.
pub record IsPriced (s x : Split) : Type 0 where
  pub lines : x.line_items ≡ s.line_items
  pub payments : x.payments ≡ s.payments
  pub got : x.amount_paid ≡ amount_paid s.payments
  pub rest : x.unpaid_balance ≡ balance x.total_due x.amount_paid
  pub state : x.state ≡ next_state s.state x.total_due x.amount_paid
  pub shown : x.breakdown.total_due ≡ x.total_due
  pub shown_tax : x.breakdown.tax_total ≡ x.tax_total

pub record ArePriced (s t : Splits) : Type 0 where
  pub split_a : IsPriced s.split_a t.split_a
  pub split_b : IsPriced s.split_b t.split_b
  pub split_c : IsPriced s.split_c t.split_c

price_split-IsPriced :
    (p : Pricing) (ch : Charges) (d tax service : ℕ) (s : Split)
    → IsPriced s (price_split p ch d tax service s)
unfolding price_split
price_split-IsPriced p ch d tax service s = record {
  lines = refl;
  payments = refl;
  got = refl;
  rest = refl;
  state = refl;
  shown = refl;
  shown_tax = refl;
}

pub apply_bill_level_pricing-ArePriced :
    (p : Pricing) (s t : Splits) → apply_bill_level_pricing p s ≡ ok t → ArePriced s t
unfolding apply_bill_level_pricing
apply_bill_level_pricing-ArePriced p s t h =
    let (ch, charged, same) = and_then-eq-ok (charges_on p (sum (bases p s))) _ h in
    subst (ArePriced s) (ok-injective same) (record {
      split_a = price_split-IsPriced p ch _ _ _ s.split_a;
      split_b = price_split-IsPriced p ch _ _ _ s.split_b;
      split_c = price_split-IsPriced p ch _ _ _ s.split_c;
    })
