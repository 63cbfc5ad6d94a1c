-- ===== src/Billing/Payments/Ledger.antt =====
-- The payments of one split: finding an original payment, what of it was refunded, and the entries
-- that a payment, a refund and a void leave.
use restaurant_pos.Base.{
  ℕ, ◌+◌, ◌-◌, Bool, false, not, ◌&&◌, ◌||◌, Option, none, some, List, [], ◌∷◌, ◌==◌, ltb,
  if◌then◌else◌, find, some_of,
}
use restaurant_pos.Base.Text.{Text}
use restaurant_pos.Base.Result.{
  Result, and_then, check, over_refund, refunded_payment, already_voided,
}
use restaurant_pos.Billing.Types.{
  Payment, PaymentMethod, captured, refunded, voided, payment, refund, void, Reference, is_payment,
  is_refund, is_void_entry, is_voided,
}

abbrev pub links_to : ℕ → Option ℕ → Bool
links_to id none = false
links_to id (some x) = x == id

-- `split.payments.find((payment) => payment.id === paymentId && type is payment)`
unfoldable pub find_payment : List Payment → ℕ → Option Payment
find_payment ps id = find (λ p. p.id == id && is_payment p.kind) ps

-- The sum of the refunds that are linked to a payment.
unfoldable pub refunded_of : ℕ → List Payment → ℕ
refunded_of id [] = 0
refunded_of id (p ∷ ps) =
    (if links_to id p.linked && is_refund p.kind then p.amount else 0) + refunded_of id ps

unfoldable pub already_reversed : Payment → List Payment → ℕ
already_reversed p ps = if is_voided p.status then p.amount else refunded_of p.id ps

-- `amount > refundable` is refused.
unfoldable pub check_refund : Payment → List Payment → ℕ → Result (Unit {0})
unfolding already_reversed
check_refund p ps amount = check (not (ltb (p.amount - already_reversed p ps) amount)) over_refund

unfoldable pub check_void : Payment → List Payment → Result (Unit {0})
check_void p ps = and_then (check (not (ltb 0 (refunded_of p.id ps))) refunded_payment) λ _.
    check
      (not (some_of (λ q. links_to p.id q.linked && is_void_entry q.kind) ps || is_voided p.status))
      already_voided

-- `original.status = 'voided'`, on the entry that `find_payment` gives
unfoldable pub mark_voided : List Payment → ℕ → List Payment
mark_voided [] id = []
mark_voided (p ∷ ps) id =
    if p.id == id && is_payment p.kind
    then record p { status = voided } ∷ ps
    else p ∷ mark_voided ps id

unfoldable pub new_payment : ℕ → ℕ → PaymentMethod → ℕ → ℕ → Option Reference → Payment
new_payment id amount method paid_at actor reference = record {
  id = id;
  amount = amount;
  method = method;
  paid_at = paid_at;
  received_by = actor;
  kind = payment;
  status = captured;
  reference = reference;
  linked = none;
  reason = [];
}

unfoldable pub refund_entry : Payment → ℕ → ℕ → ℕ → ℕ → Text → Option Reference → Payment
refund_entry original id amount now actor reason reference = record {
  id = id;
  amount = amount;
  method = original.method;
  paid_at = now;
  received_by = actor;
  kind = refund;
  status = refunded;
  reference = reference;
  linked = some original.id;
  reason = reason;
}

unfoldable pub void_entry : Payment → ℕ → ℕ → ℕ → Text → Option Reference → Payment
void_entry original id now actor reason reference = record {
  id = id;
  amount = original.amount;
  method = original.method;
  paid_at = now;
  received_by = actor;
  kind = void;
  status = voided;
  reference = reference;
  linked = some original.id;
  reason = reason;
}
