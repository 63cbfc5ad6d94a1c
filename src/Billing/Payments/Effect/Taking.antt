-- ===== src/Billing/Payments/Effect/Taking.antt =====
-- A payment that goes through, by its effect.
use restaurant_pos.Base.{
  ℕ, ◌≡◌, refl, sym, ◌∙◌, ap, subst, inl, inr, ◌⊎◌, true, false, none, some, [], ◌∷◌, ◌++◌, arith,
  Bool-cases, Option-cases,
}
use restaurant_pos.Base.Int.{pos, pos_part, ltb_ℤ, ◌+ℤ◌}
use restaurant_pos.Base.Table.{get, get-put_self}
use restaurant_pos.Base.Result.{Result, ok}
use restaurant_pos.Money.{round2}
use restaurant_pos.Store.{Store}
use restaurant_pos.Billing.Types.{Bill, Payment, SplitLabel, a, b, c, split_of, is_external}
use restaurant_pos.Billing.Splits.{amount_paid, payment_contribution}
use restaurant_pos.Billing.Access.{append_billing_audit, record_audit_event}
use restaurant_pos.Billing.Devices.{Devices, Request, Answer, Taken}
use restaurant_pos.Billing.Payments.Ledger.{new_payment}
use restaurant_pos.Billing.Payments.Record.{
  PaymentInput, record_split_payment, take_payment, open_drawer_for, push_payment, or_now,
  request_for,
}
use restaurant_pos.Billing.Payments.Outcome.{Refused}
use restaurant_pos.Billing.Payments.Outcome.Record.{Recorded, record_split_payment_cases}
use restaurant_pos.Billing.Payments.Effect.{amount_paid-append}
use restaurant_pos.Billing.Payments.Effect.Owed.{Owes, post_debt_effect}

-- The terminal authorized and captured an external payment, which names both answers; for cash the
-- drawer was opened.
pub Took : Devices → Request → Payment → Type 0
Took d r p =
    ((is_external r.method ≡ true)
      × (authorization : ℕ) × (answer : Answer) × (d.authorize r ≡ some authorization)
      × (d.capture r authorization ≡ some answer)
      × (p.reference
          ≡ some (record {
            authorization = some authorization;
            capture = some answer.id;
            reversal = none;
          })))
    ⊎ ((is_external r.method ≡ false)
        × (answer : Answer) × (d.open_drawer r ≡ some answer)
        × (p.reference ≡ none))

take_payment-Took :
    (d : Devices) (r : Request) (at : ℕ) (t : Taken) (p : Payment) (s : Store)
    → take_payment d r at ≡ ok t
    → (open_drawer_for d r s).0 ≡ ok tt
    → p.reference ≡ t.reference
    → Took d r p
unfolding take_payment open_drawer_for append_billing_audit record_audit_event Took
take_payment-Took d r at t p s h k same = elim (Bool-cases (is_external r.method)) [
  | inl x ↦ elim (Option-cases (d.authorize r)) [
    | inl f ↦ ground arith
    | inr (n, f) ↦ elim (Option-cases (d.capture r n)) [
      | inl g ↦ ground arith
      | inr (w, g) ↦ inl (x, n, w, f, g, same ∙ ground arith)
    ]
  ]
  | inr x ↦ elim (Option-cases (d.open_drawer r)) [
    | inl f ↦ ground arith
    | inr (w, f) ↦ inr (x, w, f, same ∙ ground arith)
  ]
]

split_of-push_payment :
    (x : Bill) (l : SplitLabel) (p : Payment)
    → (split_of (push_payment x l p).splits l).payments ≡ (split_of x.splits l).payments ++ (p ∷ [])
split_of-push_payment x a p = refl
split_of-push_payment x b p = refl
split_of-push_payment x c p = refl

module _ (d : Devices) (input : PaymentInput) (id now : ℕ) where
  -- The effect of a payment on the split and on the ledger of debts, before and after.
  pub record Taking (s : Store) (r : Result Bill × Store) (x y : Bill) : Type 0 where
    pub entry : Payment
    pub before : get s.bills input.session ≡ some x
    pub after : get r.1.bills y.session ≡ some y
    pub positive : ltb_ℤ (pos 0) input.amount ≡ true
    pub named : entry.id ≡ id
    pub amount : entry.amount ≡ pos_part (round2 input.amount)
    pub posted :
        (split_of y.splits input.label).payments
        ≡ (split_of x.splits input.label).payments ++ (entry ∷ [])
    pub counted :
        amount_paid (split_of y.splits input.label).payments
        ≡ amount_paid (split_of x.splits input.label).payments +ℤ pos entry.amount
    pub device : Took d (request_for input x id entry.amount) entry
    pub owed : Owes input y.session (split_of y.splits input.label) s.debts r.1.debts

  effect :
      (s : Store) (x y : Bill)
      → Recorded d input id now s (record_split_payment d input id now s) x y
      → Taking s (record_split_payment d input id now s) x y
  unfolding new_payment payment_contribution round2
  effect s x y k =
      let l = input.label in
      let ps = (split_of x.splits l).payments in
      let n = pos_part (round2 input.amount) in
      let e = new_payment id n input.method k.answer.at input.actor k.answer.reference in
      let (kept, owes) =
        post_debt_effect input k.answer.at now (push_payment x l e) k.priced y k.before_debt
          k.posted k.owed in
      let all : (split_of y.splits l).payments ≡ ps ++ (e ∷ []) =
        kept ∙ split_of-push_payment x l e in
      record {
        entry = e;
        before = k.loaded;
        after = ap (λ t. get t y.session) k.saved ∙ get-put_self s.bills y.session y;
        positive = k.positive;
        named = refl;
        amount = refl;
        posted = all;
        counted = ap amount_paid all ∙ amount_paid-append ps e;
        device =
            take_payment-Took d (request_for input x id n) (or_now input.paid_at now) k.answer e s
              k.taken k.drawer refl;
        owed =
            subst
              (λ v.
                Owes input y.session (split_of y.splits l) v
                  (record_split_payment d input id now s).1.debts)
              k.earlier
              (subst (λ v. Owes input y.session (split_of y.splits l) k.before_debt.debts v)
                (sym k.debts) owes);
      }

  -- A payment either fails, and then no bill changed; or the stored bill's split has one entry more,
  -- of the rounded amount, which was positive before it was rounded; the amount paid is up by it; the
  -- terminal authorized and captured it, or the drawer was opened; and what is then left to pay is a
  -- new debt of that amount where the caller asks for one, with the split in debt where anything is
  -- due on it, and is no debt otherwise.
  pub record_split_payment_effect :
      (s : Store)
      → let r = record_split_payment d input id now s in
        ((x : Bill) × (y : Bill) × (r.0 ≡ ok y) × Taking s r x y) ⊎ Refused s r
  record_split_payment_effect s = elim (record_split_payment_cases d input id now s) [
    | inr f ↦ inr f
    | inl (x, y, k) ↦ inl (x, y, k.gives, effect s x y k)
  ]
