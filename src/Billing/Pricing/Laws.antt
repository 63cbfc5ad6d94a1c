-- ===== src/Billing/Pricing/Laws.antt =====
-- Promotions take what they say and no more.
use restaurant_pos.Base.{ℕ, ◌+◌, ◌-◌, ◌≤◌, ◌≡◌, List, [], ◌∷◌, arith}
use restaurant_pos.Base.Result.{ok, and_then-eq-ok}
use restaurant_pos.Billing.Types.{Promotion, Applied}
use restaurant_pos.Billing.Pricing.{amounts, compute_promotion_discount, apply_promotions}

pub compute_promotion_discount-le :
    (p : Promotion) (base : ℕ) (x : Applied)
    → compute_promotion_discount p base ≡ ok x
    → x.amount ≤ base
unfolding compute_promotion_discount
compute_promotion_discount-le p base x h = ground arith

-- What a list of promotions takes off and what it leaves make up the subtotal it started from, in
-- whatever order and however large the promotions are.
pub apply_promotions-sum :
    (ps : List Promotion) (base : ℕ) (applied : List Applied) (left : ℕ)
    → apply_promotions ps base ≡ ok (applied, left)
    → amounts applied + left ≡ base
unfolding apply_promotions
apply_promotions-sum [] base applied left h = ground arith
apply_promotions-sum (p ∷ ps) base applied left h =
    let (x, first, h') = and_then-eq-ok (compute_promotion_discount p base) _ h in
    let (rest, more, same) = and_then-eq-ok (apply_promotions ps (base - x.amount)) _ h' in
    ground (
      arith,
      compute_promotion_discount-le p base x first,
      apply_promotions-sum ps (base - x.amount) rest.0 rest.1 more,
    )
