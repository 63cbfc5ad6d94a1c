-- ===== src/Billing/Types.antt =====
-- The data of backend/billing/repository.ts. Money is in cents, a quantity in thousandths, a rate in
-- hundredths of a percent (a service charge rate in thousandths); what the program only stores or
-- prints, such as names and branches of a payment, is left out.
use restaurant_pos.Base.{ℕ, Bool, true, false, Option, List}
use restaurant_pos.Base.Int.{ℤ}
use restaurant_pos.Base.Text.{Text}

-- `unpaid` is the state that the source calls `open`.
pub data BillingState : Type 0 where
  unpaid partially_paid paid debt void : BillingState

pub data PaymentMethod : Type 0 where
  cash card wallet bank_transfer wave_money kbzpay : PaymentMethod

pub data PaymentStatus : Type 0 where
  authorized captured settled refunded voided failed : PaymentStatus

-- `BillPaymentEntryType`; the source reads an entry without a type as `payment`.
pub data EntryType : Type 0 where
  payment refund void : EntryType

pub data SplitLabel : Type 0 where
  a b c : SplitLabel

pub data TaxMode : Type 0 where
  taxable tax_exempt : TaxMode

pub data PromotionType : Type 0 where
  fixed_amount percentage : PromotionType

-- `TableOrderItem`; the discounts and the tax are raw inputs, in tenths of a cent.
pub record TableOrderItem : Type 0 where
  pub id : ℕ
  pub session : ℕ
  pub quantity : ℕ
  pub unit_price : ℕ
  pub item_discount : Option ℤ
  pub combo_discount : Option ℤ
  pub happy_hour_discount : Option ℤ
  pub line_discount : Option ℤ
  pub line_tax : Option ℤ

-- The value is in cents, or in hundredths of a percent.
pub record Promotion : Type 0 where
  pub id : ℕ
  pub kind : PromotionType
  pub value : ℤ
  pub max_discount : Option ℤ

-- `BillPricingOptions`, as `normalizePricing` returns it: every field is there.
pub record Pricing : Type 0 where
  pub tax_mode : TaxMode
  pub tax_rate : ℕ
  pub promotions : List Promotion
  pub service_rate : ℕ
  pub service_enabled : Bool

-- `Partial<BillPricingOptions>`; the rates and amounts are raw, in tenths of the unit of `Pricing`
-- but for the service charge rate, which is not rounded.
pub record PricingInput : Type 0 where
  pub tax_mode : Option TaxMode
  pub tax_rate : Option ℤ
  pub promotions : Option (List Promotion)
  pub service_rate : Option ℤ
  pub service_enabled : Option Bool

pub record Discounts : Type 0 where
  pub item_level : ℕ
  pub combo : ℕ
  pub happy_hour : ℕ
  pub bill_level : ℕ
  pub total : ℕ

-- `BillPromotionApplication`
pub record Applied : Type 0 where
  pub promotion : ℕ
  pub base_amount : ℕ
  pub amount : ℕ
  pub capped_by_subtotal : Bool
  pub max_discount_applied : Option ℕ

-- `BillLineItem`, with `gross` and `netBeforeBillDiscount` of its calculation.
pub record LineItem : Type 0 where
  pub order_item : ℕ
  pub quantity : ℕ
  pub unit_price : ℕ
  pub item_discount : ℕ
  pub combo_discount : ℕ
  pub happy_hour_discount : ℕ
  pub line_discount : ℕ
  pub line_tax : ℤ
  pub line_total : ℤ
  pub gross : ℕ
  pub net : ℕ

-- `BillCalculationBreakdown`
pub record Breakdown : Type 0 where
  pub subtotal : ℕ
  pub discounts : Discounts
  pub taxable_subtotal : ℕ
  pub tax_mode : TaxMode
  pub tax_rate : ℕ
  pub tax_total : ℕ
  pub service_total : ℕ
  pub service_rate : ℕ
  pub service_enabled : Bool
  pub total_due : ℕ
  pub applied : List Applied
  pub lines : List LineItem

-- `ExternalPaymentReference`
pub record Reference : Type 0 where
  pub authorization : Option ℕ
  pub capture : Option ℕ
  pub reversal : Option ℕ

-- `BillPayment`
pub record Payment : Type 0 where
  pub id : ℕ
  pub amount : ℕ
  pub method : PaymentMethod
  pub paid_at : ℕ
  pub received_by : ℕ
  pub kind : EntryType
  pub status : PaymentStatus
  pub reference : Option Reference
  pub linked : Option ℕ
  pub reason : Text

-- `BillSplit`
pub record Split : Type 0 where
  pub line_items : List LineItem
  pub subtotal : ℕ
  pub tax_total : ℕ
  pub discount_total : ℕ
  pub total_due : ℕ
  pub amount_paid : ℤ
  pub unpaid_balance : ℕ
  pub state : BillingState
  pub payments : List Payment
  pub breakdown : Breakdown

-- `Record<SplitLabel, BillSplit>`
pub record Splits : Type 0 where
  pub split_a : Split
  pub split_b : Split
  pub split_c : Split

-- The sums of `ReceiptPayload`.
pub record Receipt : Type 0 where
  pub total_paid : ℤ
  pub balance_due : ℕ
  pub breakdown : Breakdown

pub record Bill : Type 0 where
  pub id : ℕ
  pub branch : ℕ
  pub session : ℕ
  pub splits : Splits
  pub state : BillingState
  pub pricing : Pricing
  pub breakdown : Breakdown
  pub receipt : Option Receipt
  pub created_at : ℕ
  pub updated_at : ℕ

pub data DebtAction : Type 0 where
  debt_created debt_settled_partial debt_settled_full : DebtAction

pub record DebtEntry : Type 0 where
  pub session : ℕ
  pub label : SplitLabel
  pub amount : ℕ
  pub action : DebtAction
  pub actor : ℕ
  pub at : ℕ

abbrev pub split_of : Splits → SplitLabel → Split
split_of s a = s.split_a
split_of s b = s.split_b
split_of s c = s.split_c

abbrev pub with_split : Splits → SplitLabel → Split → Splits
with_split s a x = record s { split_a = x }
with_split s b x = record s { split_b = x }
with_split s c x = record s { split_c = x }

-- `SPLIT_LABELS.map`
abbrev pub map_splits : (Split → Split) → Splits → Splits
map_splits f s = record { split_a = f s.split_a; split_b = f s.split_b; split_c = f s.split_c }

abbrev pub is_paid : BillingState → Bool
is_paid paid = true
is_paid _ = false

abbrev pub is_debt : BillingState → Bool
is_debt debt = true
is_debt _ = false

abbrev pub is_void : BillingState → Bool
is_void void = true
is_void _ = false

abbrev pub is_partially_paid : BillingState → Bool
is_partially_paid partially_paid = true
is_partially_paid _ = false

abbrev pub is_payment : EntryType → Bool
is_payment payment = true
is_payment _ = false

abbrev pub is_refund : EntryType → Bool
is_refund refund = true
is_refund _ = false

abbrev pub is_void_entry : EntryType → Bool
is_void_entry void = true
is_void_entry _ = false

abbrev pub is_voided : PaymentStatus → Bool
is_voided voided = true
is_voided _ = false

-- `isExternalPaymentMethod`
abbrev pub is_external : PaymentMethod → Bool
is_external cash = false
is_external _ = true
