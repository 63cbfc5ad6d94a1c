-- ===== src/Billing/Splits/Totals.antt =====
-- Splitting a bill neither creates nor loses a cent: the parts of the splits add up to the charges
-- of the bill, which depend on the lines alone and not on the split they stand in.
use restaurant_pos.Base.{
  ℕ, zero, suc, ◌+◌, ◌-◌, ◌≤◌, ◌≡◌, refl, subst, List, [], ◌∷◌, map, arith, sum, length, get_or,
}
use restaurant_pos.Base.Result.{ok, and_then-eq-ok, ok-injective}
use restaurant_pos.Money.{percent_of, service_of}
use restaurant_pos.Money.Allocate.{allocate_amount}
use restaurant_pos.Money.Allocate.Conserve.{allocate_amount-sum}
use restaurant_pos.Money.Allocate.Bound.{allocate_amount-le}
use restaurant_pos.Billing.Types.{Pricing, Split, Splits}
use restaurant_pos.Billing.Pricing.{apply_promotions}
use restaurant_pos.Billing.Pricing.Laws.{apply_promotions-sum}
use restaurant_pos.Billing.Splits.Defs.{
  Charges, charges_on, base_of, bases, minus_each, price_split, price_each,
  apply_bill_level_pricing,
}

abbrev pub add_up : (Split → ℕ) → Splits → ℕ
add_up f s = f s.split_a + f s.split_b + f s.split_c

three : (xs : List ℕ) → length xs ≡ 3 → sum xs ≡ get_or xs 0 0 + get_or xs 1 0 + get_or xs 2 0
three [] h = absurd (omega arith)
three (x ∷ []) h = absurd (omega arith)
three (x ∷ y ∷ []) h = absurd (omega arith)
three (x ∷ y ∷ z ∷ []) h = omega arith
three (x ∷ y ∷ z ∷ w ∷ r) h = absurd (omega arith)

zero_parts :
    (cents : ℕ) (bs : List ℕ) → cents ≡ 0 → (k : ℕ) → get_or (allocate_amount cents bs) k 0 ≡ 0
unfolding allocate_amount
zero_parts cents bs h k = rw h (go bs k)
  where
    go : (xs : List ℕ) (j : ℕ) → get_or {A = ℕ} (map (λ _. 0) xs) j 0 ≡ 0
    go [] j = refl
    go (x ∷ xs) zero = refl
    go (x ∷ xs) (suc j) = go xs j

-- The three parts of an allocation over three bases.
allocate_three :
    (cents x y z : ℕ)
    → (x + y + z ≡ 0 → cents ≡ 0)
    → let out = allocate_amount cents (x ∷ y ∷ z ∷ []) in
      get_or out 0 0 + get_or out 1 0 + get_or out 2 0 ≡ cents
allocate_three cents x y z none_left = go (x + y + z) refl
  where
    go :
        (n : ℕ)
        → x + y + z ≡ n
        → let out = allocate_amount cents (x ∷ y ∷ z ∷ []) in
          get_or out 0 0 + get_or out 1 0 + get_or out 2 0 ≡ cents
    go zero e =
        let gone = none_left e in
        let part = zero_parts cents (x ∷ y ∷ z ∷ []) gone in omega (arith, part 0, part 1, part 2)
    go (suc n) e =
        let (total, count) = allocate_amount-sum cents (x ∷ y ∷ z ∷ []) (omega arith) in
        omega (arith, three (allocate_amount cents (x ∷ y ∷ z ∷ [])) count)

charges_on-parts :
    (p : Pricing) (base : ℕ) (ch : Charges)
    → charges_on p base ≡ ok ch
    → (ch.discount + ch.base ≡ base) × (ch.base ≡ 0 → ch.tax ≡ 0) × (ch.base ≡ 0 → ch.service ≡ 0)
unfolding charges_on percent_of service_of
charges_on-parts p base ch h =
    let (promoted, applied, same) = and_then-eq-ok (apply_promotions p.promotions base) _ h in
    let total = apply_promotions-sum p.promotions base promoted.0 promoted.1 applied in
    (ground arith, (λ z. ground arith), (λ z. ground arith))

minus_each-three :
    (x y z : ℕ) (ds : List ℕ)
    → minus_each (x ∷ y ∷ z ∷ []) ds
      ≡ (x - get_or ds 0 0) ∷ (y - get_or ds 1 0) ∷ (z - get_or ds 2 0) ∷ []
minus_each-three x y z [] = ground arith
minus_each-three x y z (d ∷ []) = ground arith
minus_each-three x y z (d ∷ e ∷ []) = ground arith
minus_each-three x y z (d ∷ e ∷ f ∷ r) = refl

module _ (p : Pricing) (s : Splits) (ch : Charges)
    (charged : charges_on p (sum (bases p s)) ≡ ok ch) where
  abbrev discounts : List ℕ
  discounts = allocate_amount ch.discount (bases p s)

  discounts-le : (k : ℕ) → get_or discounts k 0 ≤ get_or (bases p s) k 0
  discounts-le =
      allocate_amount-le ch.discount (bases p s)
        (omega (arith, charges_on-parts p (sum (bases p s)) ch charged))

  discounts-sum : get_or discounts 0 0 + get_or discounts 1 0 + get_or discounts 2 0 ≡ ch.discount
  discounts-sum =
      allocate_three ch.discount (base_of p s.split_a) (base_of p s.split_b) (base_of p s.split_c)
        (λ z. omega (arith, charges_on-parts p (sum (bases p s)) ch charged))

  -- What each split keeps of its lines after the bill's discount.
  abbrev kept : ℕ → ℕ
  kept k = get_or (bases p s) k 0 - get_or discounts k 0

  kept-sum : kept 0 + kept 1 + kept 2 ≡ ch.base
  kept-sum = omega (
    arith,
    charges_on-parts p (sum (bases p s)) ch charged,
    discounts-sum,
    discounts-le 0,
    discounts-le 1,
    discounts-le 2,
  )

  abbrev parts : ℕ → List ℕ
  parts cents = allocate_amount cents (minus_each (bases p s) discounts)

  parts-sum :
      (cents : ℕ)
      → (ch.base ≡ 0 → cents ≡ 0)
      → get_or (parts cents) 0 0 + get_or (parts cents) 1 0 + get_or (parts cents) 2 0 ≡ cents
  parts-sum cents none_left =
      rw
        (minus_each-three (base_of p s.split_a) (base_of p s.split_b) (base_of p s.split_c)
          discounts)
        (allocate_three cents (kept 0) (kept 1) (kept 2) (λ z. none_left (omega (arith, kept-sum))))

  abbrev priced : Splits
  priced = price_each p ch s discounts (parts ch.tax) (parts ch.service)

  -- What the priced splits add up to.
  abbrev Adds : Splits → Type 0
  Adds t =
      (add_up (λ x. x.tax_total) t ≡ ch.tax)
      × (add_up (λ x. x.breakdown.service_total) t ≡ ch.service)
      × (add_up (λ x. x.breakdown.discounts.bill_level) t ≡ ch.discount)
      × (add_up (λ x. x.breakdown.taxable_subtotal) t ≡ ch.base)
      × (add_up (λ x. x.total_due) t ≡ ch.base + ch.tax + ch.service)

  priced-Adds : Adds priced
  unfolding price_split
  priced-Adds =
      let tax = parts-sum ch.tax (charges_on-parts p (sum (bases p s)) ch charged).1 in
      let service = parts-sum ch.service (charges_on-parts p (sum (bases p s)) ch charged).2 in
      (tax, service, discounts-sum, kept-sum, omega (arith, kept-sum, tax, service))

-- The split's own figures agree, and its share of the bill's discount is no more than its lines.
abbrev pub IsConsistent : Pricing → Split → Type 0
IsConsistent p x =
    (x.breakdown.taxable_subtotal + x.breakdown.discounts.bill_level ≡ base_of p x)
    × (x.total_due ≡ x.breakdown.taxable_subtotal + x.tax_total + x.breakdown.service_total)

-- The splits' figures add up to the charges of the whole bill.
pub record Conserves (p : Pricing) (ch : Charges) (t : Splits) : Type 0 where
  pub tax : add_up (λ x. x.tax_total) t ≡ ch.tax
  pub service : add_up (λ x. x.breakdown.service_total) t ≡ ch.service
  pub discount : add_up (λ x. x.breakdown.discounts.bill_level) t ≡ ch.discount
  pub base : add_up (λ x. x.breakdown.taxable_subtotal) t ≡ ch.base
  pub due : add_up (λ x. x.total_due) t ≡ ch.base + ch.tax + ch.service
  pub split_a : IsConsistent p t.split_a
  pub split_b : IsConsistent p t.split_b
  pub split_c : IsConsistent p t.split_c

priced-Conserves :
    (p : Pricing) (s : Splits) (ch : Charges) (charged : charges_on p (sum (bases p s)) ≡ ok ch)
    → Conserves p ch (priced p s ch charged)
unfolding price_split
priced-Conserves p s ch charged =
    let le = discounts-le p s ch charged in
    let sums = priced-Adds p s ch charged in
    record {
      tax = sums.0;
      service = sums.1;
      discount = sums.2;
      base = sums.3;
      due = sums.4;
      split_a = (omega (arith, le 0), refl);
      split_b = (omega (arith, le 1), refl);
      split_c = (omega (arith, le 2), refl);
    }

-- Pricing a bill over its splits conserves every charge: the splits' taxes, service charges,
-- bill-level discounts, taxable subtotals and totals due add up, to the cent, to those computed on
-- the sum of all the splits' lines, and no split is given more discount than its lines are worth.
pub apply_bill_level_pricing-Conserves :
    (p : Pricing) (s t : Splits)
    → apply_bill_level_pricing p s ≡ ok t
    → (ch : Charges) × (charges_on p (sum (bases p s)) ≡ ok ch) × Conserves p ch t
unfolding apply_bill_level_pricing
apply_bill_level_pricing-Conserves p s t h =
    let (ch, charged, same) = and_then-eq-ok (charges_on p (sum (bases p s))) _ h in
    (ch, charged, subst (Conserves p ch) (ok-injective same) (priced-Conserves p s ch charged))
