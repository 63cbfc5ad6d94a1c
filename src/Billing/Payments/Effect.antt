-- ===== src/Billing/Payments/Effect.antt =====
-- What a payment, a refund and a void leave in the ledger of a split, and what the devices did.
pub mod Back
pub mod Undone
pub mod Owed
pub mod Taking
use restaurant_pos.Base.{◌≡◌, refl, subst, sym, ◌∙◌, ap, List, [], ◌∷◌, ◌++◌, arith, ℕ}
use restaurant_pos.Base.Int.{ℤ, pos, pos_part, neg_part, ◌+ℤ◌, +ℤ_parts, eq_of_parts}
use restaurant_pos.Base.Result.{ok}
use restaurant_pos.Billing.Types.{Bill, Splits, SplitLabel, a, b, c, Payment, split_of}
use restaurant_pos.Billing.Splits.{amount_paid, payment_contribution}
use restaurant_pos.Billing.Splits.Balance.{apply_bill_level_pricing-ArePriced, IsPriced, ArePriced}
use restaurant_pos.Billing.Update.{update_bill, with_receipt}
use restaurant_pos.Billing.Update.Laws.{update_bill-eq-ok}
use restaurant_pos.Billing.Payments.Reverse.{with_payments}

pub amount_paid-append :
    (ps : List Payment) (p : Payment)
    → amount_paid (ps ++ (p ∷ [])) ≡ amount_paid ps +ℤ payment_contribution p
unfolding amount_paid
amount_paid-append [] p = eq_of_parts _ _ (
    omega
      (arith, +ℤ_parts (payment_contribution p) (pos 0), +ℤ_parts (pos 0) (payment_contribution p)))
amount_paid-append (q ∷ ps) p =
    let rest = amount_paid-append ps p in
    let x = payment_contribution q in
    let z = payment_contribution p in
    ap (λ t. x +ℤ t) rest
    ∙ eq_of_parts _ _ (
        omega (
          arith,
          +ℤ_parts x (amount_paid ps +ℤ z),
          +ℤ_parts (amount_paid ps) z,
          +ℤ_parts x (amount_paid ps),
          +ℤ_parts (x +ℤ amount_paid ps) z,
        ))

-- The split of a bill that was repriced
pub update_bill-IsPriced :
    (now : ℕ) (x y : Bill) (l : SplitLabel)
    → update_bill now x ≡ ok y
    → IsPriced (split_of x.splits l) (split_of y.splits l)
unfolding with_receipt
update_bill-IsPriced now x y l h =
    let (s, priced, same) = update_bill-eq-ok now x y h in
    let each = apply_bill_level_pricing-ArePriced x.pricing x.splits s priced in
    subst (λ v. IsPriced (split_of x.splits l) (split_of v.splits l)) same (pick l each)
  where
    pick : {s t : Splits} (l : SplitLabel) → ArePriced s t → IsPriced (split_of s l) (split_of t l)
    pick a each = each.split_a
    pick b each = each.split_b
    pick c each = each.split_c

pub split_of-with_payments :
    (x : Bill) (l : SplitLabel) (ps : List Payment)
    → (split_of (with_payments x l ps).splits l).payments ≡ ps
split_of-with_payments x a ps = refl
split_of-with_payments x b ps = refl
split_of-with_payments x c ps = refl
