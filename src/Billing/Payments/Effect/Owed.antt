-- ===== src/Billing/Payments/Effect/Owed.antt =====
-- What is left to pay after a payment, as a debt: `appendDebtLedgerEntry` in `recordSplitPaymentImpl`.
use restaurant_pos.Base.{
  ℕ, ◌≤◌, ◌≡◌, refl, sym, ◌∙◌, ap, subst, inl, inr, ◌⊎◌, true, false, List, ◌∷◌, ◌&&◌, ltb, ◌==◌,
  arith, sum, Bool-cases,
}
use restaurant_pos.Base.Int.{ℤ}
use restaurant_pos.Base.Result.{ok, and_then-eq-ok, ok-injective}
use restaurant_pos.Store.{Store}
use restaurant_pos.Billing.Types.{
  BillingState, Bill, Pricing, Splits, SplitLabel, a, b, c, Split, debt, DebtAction, DebtEntry,
  split_of, with_split,
}
use restaurant_pos.Billing.Splits.{
  Charges, charges_on, bases, minus_each, price_each, price_split, apply_bill_level_pricing,
  amount_paid, balance, next_state,
}
use restaurant_pos.Money.Allocate.{allocate_amount}
use restaurant_pos.Billing.Update.{update_bill, with_receipt}
use restaurant_pos.Billing.Update.Laws.{update_bill-eq-ok}
use restaurant_pos.Billing.Access.{append_debt, record_audit_event}
use restaurant_pos.Billing.Payments.Record.{PaymentInput, post_debt, as_debt}
use restaurant_pos.Billing.Payments.Effect.{update_bill-IsPriced}

-- The splits, with the state of one set to debt
abbrev indebted : Splits → SplitLabel → Splits
indebted s l = with_split s l (record (split_of s l) { state = debt })

abbrev priced_with : Pricing → Splits → Charges → Splits
priced_with p s ch =
    let discounts = allocate_amount ch.discount (bases p s) in
    let left = minus_each (bases p s) discounts in
    price_each p ch s discounts (allocate_amount ch.tax left) (allocate_amount ch.service left)

total_due-again :
    (p : Pricing) (s u : Splits) (ch : Charges) (l : SplitLabel)
    → charges_on p (sum (bases p s)) ≡ ok ch
    → apply_bill_level_pricing p (indebted (priced_with p s ch) l) ≡ ok u
    → (split_of u l).total_due ≡ (split_of (priced_with p s ch) l).total_due
unfolding apply_bill_level_pricing price_split
total_due-again p s u ch a e h = ap (λ v. (split_of v a).total_due) (sym (ok-injective (rw e at h)))
total_due-again p s u ch b e h = ap (λ v. (split_of v b).total_due) (sym (ok-injective (rw e at h)))
total_due-again p s u ch c e h = ap (λ v. (split_of v c).total_due) (sym (ok-injective (rw e at h)))

-- Pricing the splits again with one of them in debt asks for as much of it.
total_due-indebted :
    (p : Pricing) (s t u : Splits) (l : SplitLabel)
    → apply_bill_level_pricing p s ≡ ok t
    → apply_bill_level_pricing p (indebted t l) ≡ ok u
    → (split_of u l).total_due ≡ (split_of t l).total_due
unfolding apply_bill_level_pricing
total_due-indebted p s t u l h =
    let (ch, charged, same) = and_then-eq-ok (charges_on p (sum (bases p s))) _ h in
    subst
      (λ v.
        apply_bill_level_pricing p (indebted v l) ≡ ok u
        → (split_of u l).total_due ≡ (split_of v l).total_due)
      (ok-injective same) (total_due-again p s u ch l charged)

total_due-as_debt :
    (now : ℕ) (x y z : Bill) (l : SplitLabel)
    → update_bill now x ≡ ok y
    → update_bill now (as_debt y l) ≡ ok z
    → ((split_of z.splits l).total_due ≡ (split_of y.splits l).total_due) × (z.session ≡ y.session)
unfolding with_receipt
total_due-as_debt now x y z l h =
    let (s, priced, same) = update_bill-eq-ok now x y h in
    subst
      (λ v.
        update_bill now (as_debt v l) ≡ ok z
        → ((split_of z.splits l).total_due ≡ (split_of v.splits l).total_due)
          × (z.session ≡ v.session))
      same
      (λ k.
        let (u, again, end) = update_bill-eq-ok now _ z k in
        (
          ap (λ v. (split_of v.splits l).total_due) (sym end)
              ∙ total_due-indebted x.pricing x.splits s u l priced again,
          ap (λ v. v.session) (sym end),
        ))

split_of-as_debt :
    (x : Bill) (l : SplitLabel)
    → ((split_of (as_debt x l).splits l).payments ≡ (split_of x.splits l).payments)
      × ((split_of (as_debt x l).splits l).state ≡ debt)
split_of-as_debt x a = (refl, refl)
split_of-as_debt x b = (refl, refl)
split_of-as_debt x c = (refl, refl)

next_state-debt :
    (due : ℕ) (got : ℤ) → 1 ≤ balance due got → (due ≡ 0) ⊎ (next_state debt due got ≡ debt)
unfolding next_state
next_state-debt due got k = elim (Bool-cases (due == 0)) [
  | inl t ↦ inl (ground arith)
  | inr f ↦ inr (ground arith)
]

abbrev pub entry : PaymentInput → ℕ → ℕ → ℕ → DebtEntry
entry input session amount at = record {
  session = session;
  label = input.label;
  amount = amount;
  action = DebtAction.debt_created;
  actor = input.actor;
  at = at;
}

-- The rest became a debt, which the ledger of debts names with its amount, or was left as it was: none
-- was left or the caller asked for no debt.
pub Owes : PaymentInput → ℕ → Split → List DebtEntry → List DebtEntry → Type 0
Owes input session s before after =
    ((input.create_debt ≡ true)
      × (1 ≤ s.unpaid_balance)
      × ((s.total_due ≡ 0) ⊎ (s.state ≡ debt))
      × (at : ℕ) × (after ≡ entry input session s.unpaid_balance at ∷ before))
    ⊎ (((input.create_debt ≡ false) ⊎ (s.unpaid_balance ≡ 0)) × (after ≡ before))

debt_kept :
    (y : Bill) (l : SplitLabel) {previous : BillingState}
    → previous ≡ debt
    → (split_of y.splits l).state
      ≡ next_state previous (split_of y.splits l).total_due (split_of y.splits l).amount_paid
    → 1 ≤ balance (split_of y.splits l).total_due (split_of y.splits l).amount_paid
    → ((split_of y.splits l).total_due ≡ 0) ⊎ ((split_of y.splits l).state ≡ debt)
debt_kept y l was state some_left =
    let s = split_of y.splits l in
    elim (next_state-debt s.total_due s.amount_paid some_left) [
      | inl z ↦ inl z
      | inr q ↦ inr (state ∙ ap (λ v. next_state v s.total_due s.amount_paid) was ∙ q)
    ]

-- Both repricings end with the payments of the posted bill.
pub post_debt_effect :
    (input : PaymentInput) (at now : ℕ) (x priced y : Bill) (s : Store)
    → update_bill now x ≡ ok priced
    → (post_debt input at now priced s).0 ≡ ok y
    → ((split_of y.splits input.label).payments ≡ (split_of x.splits input.label).payments)
      × Owes input y.session
          (split_of y.splits input.label)
          s.debts
          (post_debt input at now priced s).1.debts
unfolding post_debt append_debt record_audit_event Owes
post_debt_effect input at now x priced y s h k =
    let l = input.label in
    let first = update_bill-IsPriced now x priced l h in
    elim (Bool-cases (input.create_debt && ltb 0 (split_of priced.splits l).unpaid_balance)) [
      | inr f ↦
          let same : priced ≡ y = ground arith in
          let none_left : (input.create_debt ≡ false)
              ⊎ ((split_of priced.splits l).unpaid_balance ≡ 0) =
            ground arith in
          (
            ap (λ v. (split_of v.splits l).payments) (sym same) ∙ first.payments,
            inr (
              subst (λ v. (input.create_debt ≡ false) ⊎ ((split_of v.splits l).unpaid_balance ≡ 0))
                  same none_left,
              ground arith,
            ),
          )
      | inl t ↦
          let made : update_bill now (as_debt priced l) ≡ ok y = ground arith in
          let second = update_bill-IsPriced now (as_debt priced l) y l made in
          let (due, session) = total_due-as_debt now x priced y l h made in
          let (kept, was) = split_of-as_debt priced l in
          let got : (split_of y.splits l).amount_paid ≡ (split_of priced.splits l).amount_paid =
            second.got ∙ ap amount_paid kept ∙ ap amount_paid first.payments ∙ sym first.got in
          let rest : (split_of y.splits l).unpaid_balance
              ≡ (split_of priced.splits l).unpaid_balance =
            second.rest
            ∙ ap (λ v. balance v (split_of y.splits l).amount_paid) due
            ∙ ap (balance (split_of priced.splits l).total_due) got
            ∙ sym first.rest in
          let listed : (post_debt input at now priced s).1.debts
              ≡ entry input priced.session (split_of priced.splits l).unpaid_balance at ∷ s.debts =
            ground arith in
          let some_left : 1 ≤ (split_of y.splits l).unpaid_balance = ground arith in
          (
            second.payments ∙ kept ∙ first.payments,
            inl (
              ground arith,
              some_left,
              debt_kept y l was second.state (subst (λ v. 1 ≤ v) second.rest some_left),
              at,
              listed
                  ∙ ap (λ v. entry input v (split_of priced.splits l).unpaid_balance at ∷ s.debts)
                      (sym session)
                  ∙ ap (λ v. entry input y.session v at ∷ s.debts) (sym rest),
            ),
          )
    ]
