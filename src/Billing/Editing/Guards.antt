-- ===== src/Billing/Editing/Guards.antt =====
-- Which bills the operations may change.
use restaurant_pos.Base.{
  ℕ, ◌≡◌, ◌≢◌, inl, inr, Bool, false, Option, some, List, arith, Bool-cases, Option-cases, ◌∙◌, ap,
}
use restaurant_pos.Base.Int.{ℤ}
use restaurant_pos.Base.Table.{get, put, get-put_self}
use restaurant_pos.Base.Result.{
  Result, Result-cases, Error, ok, err, bill_not_editable, session_not_found, session_not_open,
  forbidden,
}
use restaurant_pos.Store.{Store}
use restaurant_pos.Billing.Types.{
  Bill, BillingState, void, TaxMode, Promotion, SplitLabel, TableOrderItem,
}
use restaurant_pos.Billing.Pricing.{ChargeSettings, normalize_pricing}
use restaurant_pos.Billing.Update.{
  is_editable, assert_bill_editable, update_bill, with_receipt, state_of, states,
}
use restaurant_pos.Billing.Update.Laws.{update_bill-eq-ok}
use restaurant_pos.Billing.Access.{load_bill, save_bill, append_billing_audit, record_audit_event}
use restaurant_pos.Tables.Access.{require_open_session}
use restaurant_pos.Tables.Types.{is_open}
use restaurant_pos.Billing.Editing.Reprice.{
  set_bill_tax_mode, set_bill_charges, apply_bill_promotions, spread_pricing, in_branch,
}
use restaurant_pos.Billing.Editing.Items.{
  ItemsBySplit, update_bill_split_items, remove_voided_item, merge_bill_splits,
  assert_editable_splits, merged,
}
use restaurant_pos.Billing.Editing.Move.{transfer_unpaid_bill}

-- The operation throws, and the store is as it was.
abbrev pub Rejects : {A : Type 0} → Store → Result A × Store → Type 0
Rejects s r = ((e : Error) × (r.0 ≡ err e)) × (r.1 ≡ s)

set_bill_charges-Rejects :
    (session : ℕ) (x : Bill) (s : Store)
    → get s.bills session ≡ some x
    → is_editable x ≡ false
    → (tax service : Bool) (actor : ℕ) (branch : Option ℕ) (now : ℕ)
    → Rejects s (set_bill_charges session tax service actor branch now s)
unfolding set_bill_charges load_bill assert_bill_editable require_open_session
set_bill_charges-Rejects session x s e f tax service actor branch now =
    elim (Option-cases (get s.sessions session)) [
      | inl h ↦ ((session_not_found, ground arith), ground arith)
      | inr (y, h) ↦ elim (Bool-cases (is_open y.status)) [
        | inr k ↦ ((session_not_open, ground arith), ground arith)
        | inl k ↦ elim (Bool-cases (in_branch branch x.branch)) [
          | inr l ↦ ((forbidden, ground arith), ground arith)
          | inl l ↦ ((bill_not_editable, ground arith), ground arith)
        ]
      ]
    ]

transfer-Rejects :
    (session other : ℕ) (x : Bill) (s : Store)
    → get s.bills session ≡ some x
    → is_editable x ≡ false
    → (items : List TableOrderItem) (id now : ℕ)
    → Rejects s (transfer_unpaid_bill other session items id now s)
unfolding transfer_unpaid_bill assert_bill_editable
transfer-Rejects session other x s e f items id now =
    elim (Result-cases (assert_bill_editable (get s.bills other))) [
      | inl (_, h) ↦ ((bill_not_editable, ground arith), ground arith)
      | inr (c, h) ↦ ((c, ground arith), ground arith)
    ]

-- A bill that is in debt, void, paid with something due, or has a payment or a split in debt is
-- frozen: no change of its tax mode, its charges or its items, no removal of an item and no transfer
-- from or to its session goes through, and the attempt leaves the store as it was.
pub frozen_bill :
    (settings : ChargeSettings) (session other : ℕ) (x : Bill) (s : Store)
    → get s.bills session ≡ some x
    → is_editable x ≡ false
    → ((mode : TaxMode) (rate : Option ℤ) (actor now : ℕ)
        → Rejects s (set_bill_tax_mode settings session mode rate actor now s))
      × ((tax service : Bool) (actor : ℕ) (branch : Option ℕ) (now : ℕ)
          → Rejects s (set_bill_charges session tax service actor branch now s))
      × ((items : ItemsBySplit) (actor now : ℕ)
          → Rejects s (update_bill_split_items session items actor now s))
      × ((item now : ℕ) → Rejects s (remove_voided_item session item now s))
      × ((items : List TableOrderItem) (id now : ℕ)
          → Rejects s (transfer_unpaid_bill session other items id now s)
            × Rejects s (transfer_unpaid_bill other session items id now s))
unfolding set_bill_tax_mode update_bill_split_items remove_voided_item transfer_unpaid_bill
    load_bill assert_bill_editable
frozen_bill settings session other x s e f = (
  (λ mode rate actor now. ((bill_not_editable, ground arith), ground arith)),
  (λ tax service actor branch now.
      set_bill_charges-Rejects session x s e f tax service actor branch now),
  (λ items actor now. ((bill_not_editable, ground arith), ground arith)),
  (λ item now. ((bill_not_editable, ground arith), ground arith)),
  (λ items id now. (
    ((bill_not_editable, ground arith), ground arith),
    transfer-Rejects session other x s e f items id now,
  )),
)

state_of-ne-void : (xs : List BillingState) → state_of xs ≢ void
unfolding state_of
state_of-ne-void xs h = ground arith

never_void : (now : ℕ) (x y : Bill) → update_bill now x ≡ ok y → y.state ≢ void
unfolding with_receipt
never_void now x y h v =
    let (t, _, same) = update_bill-eq-ok now x y h in
    let bad : state_of (states t) ≡ void = ap (λ v. v.state) same ∙ v in
    state_of-ne-void (states t) bad

-- `applyBillPromotionsImpl` makes no check of the bill: when it goes through, the bill that it saves is
-- never void, not even if the bill was void before.
pub apply_bill_promotions_reopens :
    (settings : ChargeSettings) (session : ℕ) (promotions : List Promotion) (actor now : ℕ)
    (s s' : Store) (y : Bill)
    → apply_bill_promotions settings session promotions actor now s ≡ (ok y, s')
    → (y.state ≢ void) × (get s'.bills y.session ≡ some y)
unfolding apply_bill_promotions load_bill save_bill append_billing_audit record_audit_event
apply_bill_promotions_reopens settings session promotions actor now s s' y h =
    elim (Option-cases (get s.bills session)) [
      | inl e ↦ ground arith
      | inr (x, e) ↦
          elim (Result-cases (
            normalize_pricing settings
              (some (record (spread_pricing x.pricing) { promotions = some promotions })))) [
                | inr (c, f) ↦ ground arith
                | inl (q, f) ↦ elim (Result-cases (update_bill now (record x { pricing = q }))) [
                  | inr (c, g) ↦ ground arith
                  | inl (z, g) ↦
                      let same : z ≡ y = ground arith in
                      let stored : s'.bills ≡ put s.bills y.session y = ground arith in
                      (
                        never_void now _ y (g ∙ ap ok same),
                        rw stored (get-put_self s.bills y.session y),
                      )
                ]
              ]
    ]

-- `mergeBillSplitsImpl` checks only the payments of the splits: when it goes through, the bill that it
-- saves is never void, not even if the bill was void before.
pub merge_bill_splits_reopens :
    (session actor : ℕ) (target : SplitLabel) (now : ℕ) (s s' : Store) (y : Bill)
    → merge_bill_splits session actor target now s ≡ (ok y, s')
    → (y.state ≢ void) × (get s'.bills y.session ≡ some y)
unfolding merge_bill_splits load_bill save_bill append_billing_audit
merge_bill_splits_reopens session actor target now s s' y h =
    elim (Option-cases (get s.bills session)) [
      | inl e ↦ ground arith
      | inr (x, e) ↦ elim (Result-cases (assert_editable_splits x.splits)) [
        | inr (c, f) ↦ ground arith
        | inl (q, f) ↦ elim (Result-cases (update_bill now (merged x target))) [
          | inr (c, g) ↦ ground arith
          | inl (z, g) ↦
              let same : z ≡ y = ground arith in
              let stored : s'.bills ≡ put s.bills y.session y = ground arith in
              (never_void now _ y (g ∙ ap ok same), rw stored (get-put_self s.bills y.session y))
        ]
      ]
    ]
