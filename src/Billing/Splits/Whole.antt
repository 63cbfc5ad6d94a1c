-- ===== src/Billing/Splits/Whole.antt =====
-- The specification of a bill's total: the price of its lines taken together. The split pricing
-- implements it, so how guests split the lines does not matter.
use restaurant_pos.Base.{ℕ, ◌+◌, ◌≡◌, refl, List, [], ◌∷◌, ◌++◌, arith, sum, All}
use restaurant_pos.Base.Result.{Result, ok, err, and_then}
use restaurant_pos.Billing.Types.{Pricing, LineItem, Split, Splits}
use restaurant_pos.Billing.Lines.Laws.{IsLine}
use restaurant_pos.Billing.Splits.Defs.{
  Charges, charges_on, sum_of, line_discount_breakdown, base_of, bases, apply_bill_level_pricing,
}
use restaurant_pos.Billing.Splits.Totals.{add_up, apply_bill_level_pricing-Conserves}

abbrev pub all_lines : Splits → List LineItem
all_lines s = s.split_a.line_items ++ (s.split_b.line_items ++ s.split_c.line_items)

sum_of-append :
    (f : LineItem → ℕ) (xs ys : List LineItem) → sum_of f (xs ++ ys) ≡ sum_of f xs + sum_of f ys
sum_of-append f [] ys = omega arith
sum_of-append f (x ∷ xs) ys = omega (arith, sum_of-append f xs ys)

sum_of-gross :
    (ls : List LineItem)
    → All IsLine ls
    → sum_of (λ l. l.item_discount) ls
        + sum_of (λ l. l.combo_discount) ls
        + sum_of (λ l. l.happy_hour_discount) ls
        + sum_of (λ l. l.net) ls
      ≡ sum_of (λ l. l.gross) ls
sum_of-gross [] h = refl
sum_of-gross (l ∷ ls) h = omega (arith, h.0.whole, sum_of-gross ls h.1)

base_of-net :
    (p : Pricing) (x : Split)
    → All IsLine x.line_items
    → base_of p x ≡ sum_of (λ l. l.net) x.line_items
unfolding line_discount_breakdown
base_of-net p x h = omega (arith, sum_of-gross x.line_items h)

bases-net :
    (p : Pricing) (s : Splits)
    → All IsLine s.split_a.line_items
    → All IsLine s.split_b.line_items
    → All IsLine s.split_c.line_items
    → sum (bases p s) ≡ sum_of (λ l. l.net) (all_lines s)
bases-net p s ha hb hc = omega (
  arith,
  base_of-net p s.split_a ha,
  base_of-net p s.split_b hb,
  base_of-net p s.split_c hc,
  sum_of-append (λ l. l.net) s.split_a.line_items (s.split_b.line_items ++ s.split_c.line_items),
  sum_of-append (λ l. l.net) s.split_b.line_items s.split_c.line_items,
)

-- What the lines cost together: the net of the lines, less the promotions, with tax and service.
pub whole_due : Pricing → List LineItem → Result ℕ
whole_due p ls =
    and_then (charges_on p (sum_of (λ l. l.net) ls)) λ ch. ok (ch.base + ch.tax + ch.service)

-- What a bill comes to over its splits.
pub split_due : Pricing → Splits → Result ℕ
split_due p s = and_then (apply_bill_level_pricing p s) λ t. ok (add_up (λ x. x.total_due) t)

apply-err :
    (p : Pricing) (s : Splits)
    → (t : Result Splits) → apply_bill_level_pricing p s ≡ t
    → and_then t (λ u. ok (add_up (λ x. x.total_due) u))
      ≡ and_then (charges_on p (sum (bases p s))) λ ch. ok (ch.base + ch.tax + ch.service)
unfolding apply_bill_level_pricing
apply-err p s (ok t) h =
    let (ch, charged, sums) = apply_bill_level_pricing-Conserves p s t h in rw (charged, sums.due)
apply-err p s (err e) h = failed (charges_on p (sum (bases p s))) refl
  where
    failed :
        (r : Result Charges)
        → charges_on p (sum (bases p s)) ≡ r
        → err e ≡ and_then r λ ch. ok (ch.base + ch.tax + ch.service)
    failed (ok ch) e' = cc
    failed (err e') e'' = cc

-- A bill's total over its three splits is the price of all its lines together, and pricing fails
-- exactly when that does: how the lines are split among the guests changes nothing.
pub split_due-eq-whole_due :
    (p : Pricing) (s : Splits)
    → All IsLine s.split_a.line_items
    → All IsLine s.split_b.line_items
    → All IsLine s.split_c.line_items
    → split_due p s ≡ whole_due p (all_lines s)
unfolding split_due whole_due
split_due-eq-whole_due p s ha hb hc =
    rw (← bases-net p s ha hb hc) (apply-err p s (apply_bill_level_pricing p s) refl)
