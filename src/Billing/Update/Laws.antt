-- ===== src/Billing/Update/Laws.antt =====
-- What a repriced bill says of itself.
use restaurant_pos.Base.{ℕ, ◌+◌, ◌≡◌, ◌↔◌, ◌⊎◌, [], ◌∷◌, arith, subst, sum}
use restaurant_pos.Base.Int.{neg_part}
use restaurant_pos.Base.Result.{ok, and_then-eq-ok, ok-injective}
use restaurant_pos.Billing.Types.{Bill, BillingState, paid, debt, Split, Splits}
use restaurant_pos.Billing.Splits.{
  apply_bill_level_pricing, charges_on, bases, Charges, amount_paid,
}
use restaurant_pos.Billing.Splits.Totals.{apply_bill_level_pricing-Conserves}
use restaurant_pos.Billing.Splits.Balance.{
  next_state_cases, IsPriced, ArePriced, apply_bill_level_pricing-ArePriced,
}
use restaurant_pos.Billing.Update.{
  states, state_of, update_bill, build_receipt, merge_breakdowns, with_receipt,
}

-- A bill is paid exactly when each split is, and in debt exactly when each split is paid or in debt
-- and one is in debt.
pub state_of_iff :
    (x y z : BillingState)
    → let s = state_of (x ∷ y ∷ z ∷ []) in
      ((s ≡ paid) ↔ ((x ≡ paid) × (y ≡ paid) × (z ≡ paid)))
      × ((s ≡ debt) ↔ (
          ((x ≡ paid) ⊎ (x ≡ debt))
          × ((y ≡ paid) ⊎ (y ≡ debt))
          × ((z ≡ paid) ⊎ (z ≡ debt))
          × ((x ≡ debt) ⊎ (y ≡ debt) ⊎ (z ≡ debt))))
unfolding state_of
state_of_iff x y z = (
  (λ h. (ground arith, ground arith, ground arith), λ h. ground arith),
  (λ h. (ground arith, ground arith, ground arith, ground arith), λ h. ground arith),
)

abbrev pub repriced : ℕ → Bill → Splits → Bill
repriced now b s = with_receipt (record b {
  splits = s;
  state = state_of (states s);
  breakdown = merge_breakdowns s b.pricing;
  updated_at = now;
})

pub update_bill-eq-ok :
    (now : ℕ) (b b' : Bill)
    → update_bill now b ≡ ok b'
    → (s : Splits) × (apply_bill_level_pricing b.pricing b.splits ≡ ok s) × (repriced now b s ≡ b')
unfolding update_bill
update_bill-eq-ok now b b' h =
    let (s, priced, same) = and_then-eq-ok (apply_bill_level_pricing b.pricing b.splits) _ h in
    (s, priced, ok-injective same)

-- The payments of a split, refunds taken off, sum to zero or more.
abbrev pub NotOverdrawn : Split → Type 0
NotOverdrawn s = neg_part (amount_paid s.payments) ≡ 0

split-settled :
    (s x : Split) → IsPriced s x → NotOverdrawn s → (x.state ≡ paid) ↔ (x.unpaid_balance ≡ 0)
split-settled s x priced sound =
    rw (priced.state, priced.rest)
      (next_state_cases s.state x.total_due x.amount_paid (rw priced.got sound)).0

repriced-settled :
    (now : ℕ) (b : Bill) (s : Splits)
    → ArePriced b.splits s
    → NotOverdrawn b.splits.split_a
    → NotOverdrawn b.splits.split_b
    → NotOverdrawn b.splits.split_c
    → ((repriced now b s).state ≡ paid) ↔ ((build_receipt (repriced now b s)).balance_due ≡ 0)
unfolding with_receipt build_receipt
repriced-settled now b s priced ha hb hc =
    let (all_paid, _) = state_of_iff s.split_a.state s.split_b.state s.split_c.state in
    let pa = split-settled b.splits.split_a s.split_a priced.split_a ha in
    let pb = split-settled b.splits.split_b s.split_b priced.split_b hb in
    let pc = split-settled b.splits.split_c s.split_c priced.split_c hc in
    (
      (λ e. let (ea, eb, ec) = all_paid.0 e in omega (arith, pa.0 ea, pb.0 eb, pc.0 ec)),
      (λ z. all_paid.1 (pa.1 (omega arith), pb.1 (omega arith), pc.1 (omega arith))),
    )

-- A bill whose splits are not overdrawn is marked paid by a repricing exactly when its receipt shows
-- a balance of zero, so that an overpaid split never makes up for another split's debt; its total
-- due is the sum of the charges on the whole bill.
pub update_bill_sound :
    (now : ℕ) (b b' : Bill)
    → NotOverdrawn b.splits.split_a
    → NotOverdrawn b.splits.split_b
    → NotOverdrawn b.splits.split_c
    → update_bill now b ≡ ok b'
    → ((b'.state ≡ paid) ↔ ((build_receipt b').balance_due ≡ 0))
      × ((ch : Charges) × (charges_on b.pricing (sum (bases b.pricing b.splits)) ≡ ok ch)
          × (b'.breakdown.total_due ≡ ch.base + ch.tax + ch.service))
unfolding with_receipt merge_breakdowns
update_bill_sound now b b' ha hb hc h =
    let (s, priced, same) = update_bill-eq-ok now b b' h in
    let each = apply_bill_level_pricing-ArePriced b.pricing b.splits s priced in
    let (ch, charged, sums) = apply_bill_level_pricing-Conserves b.pricing b.splits s priced in
    (
      subst (λ v. (v.state ≡ paid) ↔ ((build_receipt v).balance_due ≡ 0)) same
          (repriced-settled now b s each ha hb hc),
      (
        ch,
        charged,
        subst (λ v. v.breakdown.total_due ≡ ch.base + ch.tax + ch.service) same
            (omega (arith, each.split_a.shown, each.split_b.shown, each.split_c.shown, sums.due)),
      ),
    )
