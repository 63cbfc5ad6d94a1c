-- ===== src/Tests/Payments.antt =====
-- A payment, a refund of a part of it and a void, with the simulated devices.
use restaurant_pos.Base.{ℕ, ◌≡◌, ◌⊎◌, subst, true, false, none, some, [], ◌∷◌, arith}
use restaurant_pos.Base.Int.{pos, neg_part}
use restaurant_pos.Base.Table.{get}
use restaurant_pos.Base.Text.{Text}
use restaurant_pos.Store.{Store}
use restaurant_pos.Billing.Types.{Bill, a, cash, split_of}
use restaurant_pos.Billing.Splits.{amount_paid}
use restaurant_pos.Billing.Update.{update_bill}
use restaurant_pos.Billing.Devices.{simulator}
use restaurant_pos.Billing.Payments.Ledger.{new_payment}
use restaurant_pos.Billing.Payments.Record.{PaymentInput, record_split_payment}
use restaurant_pos.Billing.Payments.Reverse.{
  ReversalInput, refund_split_payment, void_split_payment,
}
use restaurant_pos.Billing.Payments.Sound.{Sound, Sound-nonneg}
use restaurant_pos.Billing.Payments.Preserve.{Fresh, new_payment-Sound}
use restaurant_pos.Billing.Payments.Outcome.{Settleable, Refused}
use restaurant_pos.Billing.Payments.Effect.Back.{Back, refund_split_payment_effect}
use restaurant_pos.Billing.Payments.Effect.Undone.{Undone, void_split_payment_effect}
use restaurant_pos.Billing.Payments.Effect.Taking.{Taking, record_split_payment_effect}
use restaurant_pos.Base.Result.{ok}
use restaurant_pos.Billing.Payments.Outcome.Keep.{
  Ledgers, refund_split_payment-Ledgers, void_split_payment-Ledgers, record_split_payment-Ledgers,
}
use restaurant_pos.Tests.Data.{store, priced_bill}

-- Ten in cash for the split A.
abbrev ten : PaymentInput
ten = record {
  session = 7;
  label = a;
  amount = pos 10_000;
  method = cash;
  actor = 6;
  paid_at = none;
  create_debt = false;
}

abbrev why : Text
why = 99 ∷ []

abbrev reversal : ReversalInput
reversal = record { session = 7; label = a; payment = 1; actor = 5; reason = why }

abbrev paid_store : Store
paid_store = (record_split_payment (simulator 200) ten 1 200 store).1

at_seven : (x : Bill) (k : ℕ) → get store.bills k ≡ some x → priced_bill ≡ x
at_seven x k e = ground arith

Settleable-priced_bill : Settleable priced_bill.splits
unfolding update_bill restaurant_pos.Billing.Splits.apply_bill_level_pricing
    restaurant_pos.Billing.Splits.charges_on restaurant_pos.Billing.Pricing.apply_promotions
    restaurant_pos.Billing.Editing.Items.new_bill
    restaurant_pos.Billing.Pricing.compute_promotion_discount
    restaurant_pos.Billing.Splits.price_split
Settleable-priced_bill = record {
  split_a = record { covered = tt; linked = tt; distinct = tt };
  split_b = record { covered = tt; linked = tt; distinct = tt };
  split_c = record { covered = tt; linked = tt; distinct = tt };
}

store-Ledgers : Ledgers store
unfolding Ledgers
store-Ledgers k x e = subst (λ y. Settleable y.splits) (at_seven x k e) Settleable-priced_bill

Fresh-priced_bill : Fresh 1 priced_bill.splits.split_a.payments
unfolding update_bill restaurant_pos.Billing.Splits.apply_bill_level_pricing
    restaurant_pos.Billing.Splits.charges_on restaurant_pos.Billing.Pricing.apply_promotions
    restaurant_pos.Billing.Editing.Items.new_bill
    restaurant_pos.Billing.Pricing.compute_promotion_discount
    restaurant_pos.Billing.Splits.price_split
Fresh-priced_bill = tt

store-Fresh : (x : Bill) → get store.bills 7 ≡ some x → Fresh 1 (split_of x.splits a).payments
store-Fresh x e =
    subst (λ y. Fresh 1 (split_of y.splits a).payments) (at_seven x 7 e) Fresh-priced_bill

paid_store-Ledgers : Ledgers paid_store
paid_store-Ledgers =
    record_split_payment-Ledgers (simulator 200) ten 1 200 store store-Fresh store-Ledgers

record_split_payment-Ledgers_example :
    Ledgers (record_split_payment (simulator 200) ten 1 200 store).1
record_split_payment-Ledgers_example =
    record_split_payment-Ledgers (simulator 200) ten 1 200 store store-Fresh store-Ledgers

refund_split_payment-Ledgers_example :
    Ledgers (refund_split_payment (simulator 300) reversal (pos 4_000) 2 300 paid_store).1
refund_split_payment-Ledgers_example =
    refund_split_payment-Ledgers (simulator 300) reversal (pos 4_000) 2 300 paid_store
      paid_store-Ledgers

void_split_payment-Ledgers_example :
    Ledgers (void_split_payment (simulator 300) reversal 2 300 paid_store).1
void_split_payment-Ledgers_example =
    void_split_payment-Ledgers (simulator 300) reversal 2 300 paid_store paid_store-Ledgers

-- Ten in cash, and the rest as a debt
abbrev ten_and_debt : PaymentInput
ten_and_debt = record ten { create_debt = true }

record_split_payment_effect_example :
    let r = record_split_payment (simulator 200) ten_and_debt 1 200 store in
    ((x : Bill) × (y : Bill) × (r.0 ≡ ok y) × Taking (simulator 200) ten_and_debt 1 200 store r x y)
    ⊎ Refused store r
record_split_payment_effect_example =
    record_split_payment_effect (simulator 200) ten_and_debt 1 200 store

refund_split_payment_effect_example :
    let r = refund_split_payment (simulator 300) reversal (pos 4_000) 2 300 paid_store in
    ((x : Bill) × (y : Bill) × (r.0 ≡ ok y)
      × Back (simulator 300) reversal 2 300 (pos 4_000) paid_store r x y)
    ⊎ Refused paid_store r
refund_split_payment_effect_example =
    refund_split_payment_effect (simulator 300) reversal 2 300 (pos 4_000) paid_store

void_split_payment_effect_example :
    let r = void_split_payment (simulator 300) reversal 2 300 paid_store in
    ((x : Bill) × (y : Bill) × (r.0 ≡ ok y)
      × Undone (simulator 300) reversal 2 300 paid_store r x y)
    ⊎ Refused paid_store r
void_split_payment_effect_example =
    void_split_payment_effect (simulator 300) reversal 2 300 paid_store

one_payment-Sound : Sound (new_payment 1 1000 cash 200 6 none ∷ [])
one_payment-Sound =
    new_payment-Sound [] 1 1000 cash 200 6 none tt
      (record { covered = tt; linked = tt; distinct = tt })

Sound-nonneg_example : neg_part (amount_paid (new_payment 1 1000 cash 200 6 none ∷ [])) ≡ 0
Sound-nonneg_example = Sound-nonneg (new_payment 1 1000 cash 200 6 none ∷ []) one_payment-Sound
