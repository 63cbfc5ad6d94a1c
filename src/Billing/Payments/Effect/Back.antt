-- ===== src/Billing/Payments/Effect/Back.antt =====
-- A refund that goes through, by its effect.
use restaurant_pos.Base.{
  ℕ, ◌≤◌, ◌≡◌, refl, sym, ◌∙◌, ap, subst, inl, inr, ◌⊎◌, true, false, none, some, List, [], ◌∷◌,
  ◌++◌, ◌==◌, arith, Bool-cases, Option-cases,
}
use restaurant_pos.Base.Int.{ℤ, pos_part, sub_ℕ, ◌+ℤ◌}
use restaurant_pos.Base.Text.{trim}
use restaurant_pos.Base.Table.{get, get-put_self}
use restaurant_pos.Base.Result.{Result, ok}
use restaurant_pos.Money.{round2}
use restaurant_pos.Store.{Store}
use restaurant_pos.Billing.Types.{Bill, Payment, refund, split_of, is_external, is_voided}
use restaurant_pos.Billing.Splits.{amount_paid, payment_contribution}
use restaurant_pos.Billing.Devices.{Devices, Request, Answer, Taken}
use restaurant_pos.Billing.Access.{append_billing_audit}
use restaurant_pos.Billing.Payments.Ledger.{find_payment, refunded_of, check_refund, refund_entry}
use restaurant_pos.Billing.Payments.Reverse.{
  ReversalInput, refund_split_payment, pay_back, request_of, capture_of,
}
use restaurant_pos.Billing.Payments.Preserve.{refunded_of-append}
use restaurant_pos.Billing.Payments.Outcome.{Refused}
use restaurant_pos.Billing.Payments.Outcome.Refund.{Refunded, refund_split_payment_cases}
use restaurant_pos.Billing.Payments.Effect.{
  amount_paid-append, update_bill-IsPriced, split_of-with_payments,
}

-- The device gave the money back: the terminal for the capture of the payment, which the entry
-- names with the terminal's answer, or the drawer, which was opened.
pub GaveBack : Devices → Request → Payment → Payment → Type 0
GaveBack d r original entry =
    ((is_external original.method ≡ true)
      × (capture : ℕ) × (answer : Answer) × (capture_of original.reference ≡ some capture)
      × (d.refund r capture ≡ some answer)
      × (entry.reference
          ≡ some
              (record { authorization = none; capture = some capture; reversal = some answer.id })))
    ⊎ ((is_external original.method ≡ false)
        × (answer : Answer) × (d.open_drawer r ≡ some answer)
        × (entry.reference ≡ none))

pay_back-GaveBack :
    (d : Devices) (r : Request) (o e : Payment) (now : ℕ) (s : Store) (t : Taken)
    → (pay_back d r o now s).0 ≡ ok t
    → e.reference ≡ t.reference
    → GaveBack d r o e
unfolding pay_back append_billing_audit GaveBack
pay_back-GaveBack d r o e now s t h same = elim (Bool-cases (is_external o.method)) [
  | inl x ↦ elim (Option-cases (capture_of o.reference)) [
    | inl f ↦ ground arith
    | inr (k, f) ↦ elim (Option-cases (d.refund r k)) [
      | inl g ↦ ground arith
      | inr (w, g) ↦ inl (x, k, w, f, g, same ∙ ground arith)
    ]
  ]
  | inr x ↦ elim (Option-cases (d.open_drawer r)) [
    | inl f ↦ ground arith
    | inr (w, f) ↦ inr (x, w, f, same ∙ ground arith)
  ]
]

module _ (d : Devices) (input : ReversalInput) (id now : ℕ) where
  -- The effect of a refund on the split, before and after.
  pub record Back (raw : ℤ) (s : Store) (r : Result Bill × Store) (x y : Bill) : Type 0 where
    pub original : Payment
    pub entry : Payment
    pub before : get s.bills input.session ≡ some x
    pub after : get r.1.bills y.session ≡ some y
    pub found : find_payment (split_of x.splits input.label).payments input.payment ≡ some original
    pub posted :
        (split_of y.splits input.label).payments
        ≡ (split_of x.splits input.label).payments ++ (entry ∷ [])
    pub kind : entry.kind ≡ refund
    pub linked : entry.linked ≡ some original.id
    pub amount : entry.amount ≡ pos_part (round2 raw)
    pub covered :
        (entry.amount ≡ 0)
        ⊎ ((is_voided original.status ≡ false)
            × (refunded_of original.id (split_of y.splits input.label).payments ≤ original.amount))
    pub paid :
        amount_paid (split_of y.splits input.label).payments
        ≡ amount_paid (split_of x.splits input.label).payments +ℤ sub_ℕ 0 entry.amount
    pub device : GaveBack d (request_of input x original id entry.amount) original entry

  check_refund-covers :
      (o e : Payment) (ps : List Payment) (n : ℕ)
      → check_refund o ps n ≡ ok tt
      → e.amount ≡ n
      → e.linked ≡ some o.id
      → e.kind ≡ refund
      → (n ≡ 0) ⊎ ((is_voided o.status ≡ false) × (refunded_of o.id (ps ++ (e ∷ [])) ≤ o.amount))
  unfolding check_refund
  check_refund-covers o e ps n h a l k =
      let sum = refunded_of-append o.id ps e in
      elim (Bool-cases (n == 0)) [
        | inl z ↦ inl (ground arith)
        | inr some_n ↦ elim (Bool-cases (is_voided o.status)) [
          | inl t ↦ inl (ground arith)
          | inr f ↦ inr (f, ground arith)
        ]
      ]

  effect :
      (raw : ℤ) (s : Store) (x y : Bill)
      → Refunded d input id now raw s (refund_split_payment d input raw id now s) x y
      → Back raw s (refund_split_payment d input raw id now s) x y
  unfolding refund_entry round2 payment_contribution
  effect raw s x y k =
      let ps = (split_of x.splits input.label).payments in
      let n = pos_part (round2 raw) in
      let e =
        refund_entry k.original id n k.answer.at input.actor (trim input.reason)
          k.answer.reference in
      let priced = update_bill-IsPriced now _ y input.label k.posted in
      let all : (split_of y.splits input.label).payments ≡ ps ++ (e ∷ []) =
        priced.payments ∙ split_of-with_payments x input.label (ps ++ (e ∷ [])) in
      record {
        original = k.original;
        entry = e;
        before = k.loaded;
        after = ap (λ t. get t y.session) k.saved ∙ get-put_self s.bills y.session y;
        found = k.found;
        posted = all;
        kind = refl;
        linked = refl;
        amount = refl;
        covered =
            subst
              (λ z.
                (n ≡ 0)
                ⊎ ((is_voided k.original.status ≡ false)
                    × (refunded_of k.original.id z ≤ k.original.amount)))
              (sym all) (check_refund-covers k.original e ps n k.fits refl refl refl);
        paid = ap amount_paid all ∙ amount_paid-append ps e;
        device =
            pay_back-GaveBack d (request_of input x k.original id n) k.original e now s k.answer
              k.given refl;
      }

  -- A refund either fails, and then no bill changed; or the stored bill's split has one entry more:
  -- a refund of the rounded amount, linked to a payment that was there and that, where the amount is
  -- not rounded to nothing, was not voided and covers all its refunds, this one included; the amount
  -- paid is down by that amount, and the terminal or the drawer gave it back.
  pub refund_split_payment_effect :
      (raw : ℤ) (s : Store)
      → let r = refund_split_payment d input raw id now s in
        ((x : Bill) × (y : Bill) × (r.0 ≡ ok y) × Back raw s r x y) ⊎ Refused s r
  refund_split_payment_effect raw s = elim (refund_split_payment_cases d input id now raw s) [
    | inr f ↦ inr f
    | inl (x, y, k) ↦ inl (x, y, k.gives, effect raw s x y k)
  ]
