-- ===== src/Base/Result.antt =====
-- Errors as values: the `Error` that a function throws, by the message it carries.
use mathlib.Core.Path.{◌≡◌, refl}
use mathlib.Core.Logic.{◌⊎◌, inl, inr}
use mathlib.Core.Bool.{Bool, true, false}
use mathlib.Core.Option.{Option, none, some}

pub data Error : Type 0 where
  negative_money rate_out_of_range bill_not_found bill_exists bill_not_editable : Error
  amount_not_positive reason_required payment_not_found over_refund already_voided : Error
  refunded_payment payment_declined capture_failed no_capture_reference terminal_failed : Error
  drawer_failed paid_bill_not_voidable split_has_payments wrong_session unknown_item : Error
  split_mismatch other_branch session_not_found session_not_open session_closed : Error
  order_not_found version_conflict forbidden forbidden_transition order_delivered : Error
  order_cancelled order_item_not_found bad_quantity insufficient_stock missing_recipe : Error
  inventory_item_not_found zero_quantity receiving_reference_required table_not_found : Error
  table_inactive table_occupied bad_guest_count order_incomplete bill_incomplete bill_missing :
      Error
  kds_item_not_found prepared_items already_cancelled : Error
  negative_price price_too_high price_places name_required category_exists item_exists : Error
  category_not_found menu_item_not_found unknown_station cloud_inventory sku_exists : Error
  negative_quantity station_required item_unavailable override_reason_required : Error
  session_required takeout_name_required username_required role_required : Error
  password_too_short user_exists user_not_found invalid_credentials account_inactive : Error
  same_table destination_inactive destination_occupied bad_capacity bad_layout : Error
  token_invalid token_not_owned category_unresolved no_timestamp key_reused : Error

pub data Result {ℓ} (A : Type ℓ) : Type ℓ where
  ok : A → Result A
  err : Error → Result A

module _ {ℓ κ} {A : Type ℓ} {B : Type κ} where
  abbrev pub and_then : Result A → (A → Result B) → Result B
  and_then (ok a) f = f a
  and_then (err e) f = err e

abbrev pub check : Bool → Error → Result (Unit {0})
check true e = ok tt
check false e = err e

abbrev pub or_error {ℓ} : {A : Type ℓ} → Option A → Error → Result A
or_error none e = err e
or_error (some a) e = ok a

pub and_then-eq-ok {ℓ κ} :
    {A : Type ℓ} {B : Type κ} (m : Result A) (f : A → Result B) {b : B}
    → and_then m f ≡ ok b
    → (a : A) × (m ≡ ok a) × (f a ≡ ok b)
and_then-eq-ok (ok a) f h = (a, refl, h)
and_then-eq-ok (err e) f h = cc

pub ok-injective {ℓ} : {A : Type ℓ} {x y : A} → ok x ≡ ok y → x ≡ y
ok-injective h = cc

pub Result-cases {ℓ} :
    {A : Type ℓ} (r : Result A) → ((a : A) × (r ≡ ok a)) ⊎ ((e : Error) × (r ≡ err e))
Result-cases (ok a) = inl (a, refl)
Result-cases (err e) = inr (e, refl)
