-- ===== src/Billing/Editing/Reprice.antt =====
-- `setBillTaxModeImpl`, `applyBillPromotionsImpl` and `setBillChargesImpl` of
-- backend/billing/service.ts.
use restaurant_pos.Base.{
  ℕ, ◌*◌, ◌+◌, Bool, true, Option, none, some, List, ◌==◌, map, if◌then◌else◌,
}
use restaurant_pos.Base.Int.{ℤ, pos, negsuc}
use restaurant_pos.Base.Result.{check, forbidden}
use restaurant_pos.Store.{
  M, lift, ◌>>=◌, ◌>>◌, bill_tax_mode_changed, tax_toggled, bill_promotions_applied,
  discount_applied,
}
use restaurant_pos.Billing.Types.{
  Bill, Pricing, PricingInput, Promotion, TaxMode, taxable, tax_exempt,
}
use restaurant_pos.Billing.Pricing.{ChargeSettings, normalize_pricing, map_option, or_default}
use restaurant_pos.Billing.Update.{update_bill, assert_bill_editable}
use restaurant_pos.Billing.Access.{load_bill, save_bill, append_billing_audit, record_audit_event}
use restaurant_pos.Tables.Access.{require_open_session}

-- An amount of the bill as a raw input, in tenths.
abbrev pub tenths : ℤ → ℤ
tenths (pos n) = pos (10 * n)
tenths (negsuc n) = negsuc (10 * n + 9)

-- `{ ...bill.pricing }`, as the input of `normalizePricing`
unfoldable pub spread_pricing : Pricing → PricingInput
spread_pricing p = record {
  tax_mode = some p.tax_mode;
  tax_rate = some (tenths (pos p.tax_rate));
  promotions = some (
      map {A = Promotion}
        (λ x. record x { value = tenths x.value; max_discount = map_option tenths x.max_discount })
        p.promotions);
  service_rate = some (pos p.service_rate);
  service_enabled = some p.service_enabled;
}

unfoldable pub set_bill_tax_mode : ChargeSettings → ℕ → TaxMode → Option ℤ → ℕ → ℕ → M Bill
unfolding load_bill save_bill append_billing_audit record_audit_event spread_pricing
set_bill_tax_mode settings session mode rate actor now = do
  b ← load_bill session
  lift (assert_bill_editable (some b))
  p ← lift (
      normalize_pricing settings (
        some (record (spread_pricing b.pricing) {
          tax_mode = some mode;
          tax_rate = some (or_default rate (tenths (pos b.pricing.tax_rate)));
        })))
  final ← lift (update_bill now (record b { pricing = p }))
  append_billing_audit bill_tax_mode_changed actor session 0 now
  record_audit_event tax_toggled actor b.id 0 now
  save_bill final

-- The source does not call `assertBillEditable` here.
unfoldable pub apply_bill_promotions : ChargeSettings → ℕ → List Promotion → ℕ → ℕ → M Bill
unfolding load_bill save_bill append_billing_audit record_audit_event spread_pricing
apply_bill_promotions settings session promotions actor now = do
  b ← load_bill session
  p ← lift (
      normalize_pricing settings
        (some (record (spread_pricing b.pricing) { promotions = some promotions })))
  final ← lift (update_bill now (record b { pricing = p }))
  append_billing_audit bill_promotions_applied actor session 0 now
  record_audit_event discount_applied actor b.id 0 now
  save_bill final

abbrev pub in_branch : Option ℕ → ℕ → Bool
in_branch none b = true
in_branch (some x) b = x == b

unfoldable pub set_bill_charges : ℕ → Bool → Bool → ℕ → Option ℕ → ℕ → M Bill
unfolding load_bill save_bill record_audit_event require_open_session
set_bill_charges session include_tax include_service actor branch now = do
  require_open_session session
  b ← load_bill session
  lift (check (in_branch branch b.branch) forbidden)
  lift (assert_bill_editable (some b))
  final ← lift (
      update_bill now (record b {
        pricing = record (b.pricing) {
          tax_mode = if include_tax then taxable else tax_exempt;
          service_enabled = include_service;
        };
      }))
  record_audit_event tax_toggled actor b.id 0 now
  save_bill final
