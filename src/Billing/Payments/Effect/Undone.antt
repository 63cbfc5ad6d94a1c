-- ===== src/Billing/Payments/Effect/Undone.antt =====
-- A void that goes through, by its effect.
use restaurant_pos.Base.{
  ℕ, ◌≡◌, refl, sym, ◌∙◌, ap, subst, inl, inr, ◌⊎◌, true, false, some, List, [], ◌∷◌, ◌++◌, ◌==◌,
  ◌&&◌, arith, Bool-cases, Option-cases,
}
use restaurant_pos.Base.Int.{ℤ, pos, ◌+ℤ◌, +ℤ_parts, eq_of_parts}
use restaurant_pos.Base.Text.{trim}
use restaurant_pos.Base.Table.{get, get-put_self}
use restaurant_pos.Base.Result.{Result, ok}
use restaurant_pos.Store.{Store}
use restaurant_pos.Billing.Types.{
  Bill, Payment, voided, split_of, is_external, is_voided, is_payment,
}
use restaurant_pos.Billing.Splits.{amount_paid, payment_contribution}
use restaurant_pos.Billing.Devices.{Devices, Request, Answer, Taken}
use restaurant_pos.Billing.Payments.Ledger.{
  find_payment, refunded_of, check_void, void_entry, mark_voided,
}
use restaurant_pos.Billing.Payments.Reverse.{
  ReversalInput, void_split_payment, void_at_terminal, request_of, capture_of,
}
use restaurant_pos.Billing.Payments.Outcome.{Refused}
use restaurant_pos.Billing.Payments.Outcome.Void.{Voided, void_split_payment_cases}
use restaurant_pos.Billing.Payments.Effect.{
  amount_paid-append, update_bill-IsPriced, split_of-with_payments,
}

-- The terminal voided an external payment; a cash payment asks nothing of a device.
pub Undid : Devices → Request → Payment → Type 0
Undid d r original =
    ((is_external original.method ≡ true)
      × (answer : Answer) × (d.void_payment r (capture_of original.reference) ≡ some answer))
    ⊎ (is_external original.method ≡ false)

void_at_terminal-Undid :
    (d : Devices) (r : Request) (o : Payment) (now : ℕ) (t : Taken)
    → void_at_terminal d r o now ≡ ok t
    → Undid d r o
unfolding void_at_terminal Undid
void_at_terminal-Undid d r o now t h = elim (Bool-cases (is_external o.method)) [
  | inr x ↦ inr x
  | inl x ↦ elim (Option-cases (d.void_payment r (capture_of o.reference))) [
    | inl f ↦ ground arith
    | inr (w, f) ↦ inl (x, w, f)
  ]
]

find_payment-mark_voided :
    (ps : List Payment) (e o : Payment) (id : ℕ)
    → find_payment ps id ≡ some o
    → find_payment (mark_voided ps id ++ (e ∷ [])) id ≡ some (record o { status = voided })
unfolding find_payment mark_voided
find_payment-mark_voided [] e o id h = ground arith
find_payment-mark_voided (p ∷ ps) e o id h = elim (Bool-cases (p.id == id && is_payment p.kind)) [
  | inl t ↦ ground arith
  | inr f ↦ ground (arith, find_payment-mark_voided ps e o id)
]

assoc : (x y z : ℤ) → x +ℤ (y +ℤ z) ≡ (x +ℤ y) +ℤ z
assoc x y z =
    eq_of_parts _ _
      (omega (arith, +ℤ_parts x (y +ℤ z), +ℤ_parts y z, +ℤ_parts x y, +ℤ_parts (x +ℤ y) z))

swapped : (x y : ℤ) → x +ℤ y ≡ (pos 0 +ℤ y) +ℤ x
swapped x y =
    eq_of_parts _ _ (omega (arith, +ℤ_parts x y, +ℤ_parts (pos 0) y, +ℤ_parts (pos 0 +ℤ y) x))

-- A voided payment counts for nothing.
voided-payment_contribution :
    (p : Payment)
    → is_payment p.kind ≡ true
    → payment_contribution (record p { status = voided }) ≡ pos 0
unfolding payment_contribution
voided-payment_contribution p h = ground arith

amount_paid-mark_voided :
    (ps : List Payment) (o : Payment) (id : ℕ)
    → find_payment ps id ≡ some o
    → amount_paid ps ≡ amount_paid (mark_voided ps id) +ℤ payment_contribution o
unfolding find_payment mark_voided amount_paid
amount_paid-mark_voided [] o id h = ground arith
amount_paid-mark_voided (p ∷ ps) o id h = elim (Bool-cases (p.id == id && is_payment p.kind)) [
  | inl t ↦
      let same : p ≡ o = ground arith in
      let gone = voided-payment_contribution p (ground arith) in
      let rest = amount_paid ps in
      rw t (
        swapped (payment_contribution p) rest
        ∙ ap (λ v. (v +ℤ rest) +ℤ payment_contribution p) (sym gone)
        ∙ ap
            (λ q.
              (payment_contribution (record p { status = voided }) +ℤ rest)
              +ℤ payment_contribution q)
            same)
  | inr f ↦
      let later = amount_paid-mark_voided ps o id (ground arith) in
      rw f (
        ap (λ v. payment_contribution p +ℤ v) later
        ∙ assoc (payment_contribution p) (amount_paid (mark_voided ps id)) (payment_contribution o))
]

check_void-open :
    (o : Payment) (ps : List Payment)
    → check_void o ps ≡ ok tt
    → (is_voided o.status ≡ false) × (refunded_of o.id ps ≡ 0)
unfolding check_void
check_void-open o ps h = (ground arith, ground arith)

appended :
    (ps : List Payment) (o e : Payment) (id : ℕ)
    → find_payment ps id ≡ some o
    → payment_contribution e ≡ pos 0
    → amount_paid ps ≡ amount_paid (mark_voided ps id ++ (e ∷ [])) +ℤ payment_contribution o
appended ps o e id h none_given =
    let all = amount_paid-append (mark_voided ps id) e in
    let kept : amount_paid (mark_voided ps id ++ (e ∷ [])) ≡ amount_paid (mark_voided ps id) =
      all
      ∙ ap (λ v. amount_paid (mark_voided ps id) +ℤ v) none_given
      ∙ eq_of_parts _ _ (omega (arith, +ℤ_parts (amount_paid (mark_voided ps id)) (pos 0))) in
    amount_paid-mark_voided ps o id h ∙ ap (λ v. v +ℤ payment_contribution o) (sym kept)

module _ (d : Devices) (input : ReversalInput) (id now : ℕ) where
  -- The effect of a void on the split, before and after.
  pub record Undone (s : Store) (r : Result Bill × Store) (x y : Bill) : Type 0 where
    pub original : Payment
    pub before : get s.bills input.session ≡ some x
    pub after : get r.1.bills y.session ≡ some y
    pub found : find_payment (split_of x.splits input.label).payments input.payment ≡ some original
    pub untouched :
        (is_voided original.status ≡ false)
        × (refunded_of original.id (split_of x.splits input.label).payments ≡ 0)
    pub marked :
        find_payment (split_of y.splits input.label).payments input.payment
        ≡ some (record original { status = voided })
    pub paid :
        amount_paid (split_of x.splits input.label).payments
        ≡ amount_paid (split_of y.splits input.label).payments +ℤ payment_contribution original
    pub device : Undid d (request_of input x original id original.amount) original

  effect :
      (s : Store) (x y : Bill)
      → Voided d input id now s (void_split_payment d input id now s) x y
      → Undone s (void_split_payment d input id now s) x y
  unfolding void_entry payment_contribution
  effect s x y k =
      let ps = (split_of x.splits input.label).payments in
      let e =
        void_entry k.original id k.answer.at input.actor (trim input.reason) k.answer.reference in
      let priced = update_bill-IsPriced now _ y input.label k.posted in
      let qs = mark_voided ps input.payment ++ (e ∷ []) in
      let all : (split_of y.splits input.label).payments ≡ qs =
        priced.payments ∙ split_of-with_payments x input.label qs in
      record {
        original = k.original;
        before = k.loaded;
        after = ap (λ t. get t y.session) k.saved ∙ get-put_self s.bills y.session y;
        found = k.found;
        untouched = check_void-open k.original ps k.fits;
        marked =
            ap (λ z. find_payment z input.payment) all
            ∙ find_payment-mark_voided ps e k.original input.payment k.found;
        paid =
            subst (λ z. amount_paid ps ≡ amount_paid z +ℤ payment_contribution k.original) (sym all)
              (appended ps k.original e input.payment k.found refl);
        device =
            void_at_terminal-Undid d (request_of input x k.original id k.original.amount) k.original
              now k.answer k.given;
      }

  -- A void either fails, and then no bill changed; or the payment was there, not voided and without a
  -- refund, and in the stored bill that payment is marked voided, the amount paid is down by what the
  -- payment counted for, and the terminal voided it where it was external.
  pub void_split_payment_effect :
      (s : Store)
      → let r = void_split_payment d input id now s in
        ((x : Bill) × (y : Bill) × (r.0 ≡ ok y) × Undone s r x y) ⊎ Refused s r
  void_split_payment_effect s = elim (void_split_payment_cases d input id now s) [
    | inr f ↦ inr f
    | inl (x, y, k) ↦ inl (x, y, k.gives, effect s x y k)
  ]
