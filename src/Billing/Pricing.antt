-- ===== src/Billing/Pricing.antt =====
-- `normalizePricing` and the promotions of backend/billing/service.ts.
pub mod Laws
use restaurant_pos.Base.{
  ℕ, ◌+◌, ◌-◌, ◌≤◌, Bool, true, false, Option, none, some, List, [], ◌∷◌, map, min, ltb, is_some,
  if◌then◌else◌,
}
use restaurant_pos.Base.Int.{ℤ, pos, pos_part, neg_part, leb_ℤ, ltb_ℤ}
use restaurant_pos.Base.Result.{Result, ok, err, and_then, check, negative_money, rate_out_of_range}
use restaurant_pos.Money.{round2, percent_of, cap_discount}
use restaurant_pos.Billing.Types.{
  Pricing, PricingInput, Promotion, PromotionType, fixed_amount, percentage, Applied, TaxMode,
  taxable,
}

-- The tax and the service charge of `getPosOperationalSettings()`, raw.
pub record ChargeSettings : Type 0 where
  pub tax_enabled : Bool
  pub tax_rate : ℤ
  pub service_rate : ℤ

abbrev pub or_default {ℓ} : {A : Type ℓ} → Option A → A → A
or_default none d = d
or_default (some x) d = x

-- `assertNonNegativeMoney`, which gives the number that the test leaves.
unfoldable pub non_negative : ℤ → Result ℕ
non_negative x = if ltb_ℤ x (pos 0) then err negative_money else ok (pos_part x)

-- `serviceRate < 0 || serviceRate > 100`
unfoldable pub service_rate_in_range : ℤ → Result ℕ
service_rate_in_range x =
    if ltb_ℤ x (pos 0)
    then err rate_out_of_range
    else if ltb_ℤ (pos 100_000) x
    then err rate_out_of_range
    else ok (pos_part x)

abbrev pub map_option {ℓ κ} : {A : Type ℓ} {B : Type κ} → (A → B) → Option A → Option B
map_option f none = none
map_option f (some x) = some (f x)

unfoldable pub normalize_promotion : Promotion → Promotion
unfolding round2
normalize_promotion p = record p {
  value = round2 p.value;
  max_discount = map_option round2 p.max_discount;
}

abbrev pub no_input : PricingInput
no_input = record {
  tax_mode = none;
  tax_rate = none;
  promotions = none;
  service_rate = none;
  service_enabled = none;
}

unfoldable pub normalize_pricing : ChargeSettings → Option PricingInput → Result Pricing
unfolding non_negative service_rate_in_range normalize_promotion
normalize_pricing settings given =
    let p = or_default given no_input in
    let configured : ℤ = if settings.tax_enabled then settings.tax_rate else pos 0 in
    let default_service : ℤ = if is_some given then pos 0 else settings.service_rate in
    and_then (non_negative (or_default p.tax_rate configured)) λ rate.
      and_then (service_rate_in_range (or_default p.service_rate (pos 0))) λ _. ok (record {
        tax_mode = or_default p.tax_mode taxable;
        tax_rate = pos_part (round2 (pos rate));
        promotions = map normalize_promotion (or_default p.promotions []);
        service_rate = pos_part (or_default p.service_rate default_service);
        service_enabled = or_default p.service_enabled true;
      })

non_negative_option : Option ℤ → Result (Option ℕ)
non_negative_option none = ok none
non_negative_option (some x) = and_then (non_negative x) λ n. ok (some n)

abbrev capped_by : Option ℕ → ℕ → ℕ
capped_by none x = x
capped_by (some m) x = min x m

raw_amount : PromotionType → ℕ → ℕ → ℕ
raw_amount percentage value base = percent_of base value
raw_amount fixed_amount value base = value

unfoldable pub compute_promotion_discount : Promotion → ℕ → Result Applied
unfolding non_negative non_negative_option raw_amount percent_of cap_discount
compute_promotion_discount p base = and_then (non_negative p.value) λ value.
    and_then (non_negative_option p.max_discount) λ limit.
      let raw = raw_amount p.kind value base in
      let capped = capped_by limit raw in
      let amount = cap_discount (pos capped) base in
      ok (record {
        promotion = p.id;
        base_amount = base;
        amount = amount;
        capped_by_subtotal = ltb amount capped;
        max_discount_applied = map_option (λ m. min raw m) limit;
      })

-- The loop over the promotions: what was applied, in order, and the taxable subtotal that is left.
unfoldable pub apply_promotions : List Promotion → ℕ → Result (List Applied × ℕ)
apply_promotions [] base = ok ([], base)
apply_promotions (p ∷ ps) base = and_then (compute_promotion_discount p base) λ applied.
    and_then (apply_promotions ps (base - applied.amount)) λ rest. ok (applied ∷ rest.0, rest.1)

-- `appliedPromotions.reduce((sum, promotion) => sum + promotion.amount, 0)`
abbrev pub amounts : List Applied → ℕ
amounts [] = 0
amounts (x ∷ xs) = x.amount + amounts xs
