-- ===== src/Money/Bounds.antt =====
-- Rounding is to the nearest cent, and a rate of at most 100% takes no more than its base.
use restaurant_pos.Base.{ℕ, ◌+◌, ◌*◌, ◌≤◌, ◌<◌, ◌≡◌, arith}
use restaurant_pos.Base.Int.{ℤ, pos, negsuc, pos_part, neg_part}
use restaurant_pos.Money.Defs.{round2, percent_of, cap_discount}

pub round2_cents : (n : ℕ) → round2 (pos (10 * n)) ≡ pos n
unfolding round2
round2_cents n = ground arith

-- Of a signed amount in tenths of a cent, `round2` gives a whole cent at most half a cent away,
-- and of two equally near cents the upper one.
pub round2_nearest :
    (a : ℤ)
    → (10 * pos_part (round2 a) + neg_part a ≤ pos_part a + 10 * neg_part (round2 a) + 5)
      × (pos_part a + 10 * neg_part (round2 a) < 10 * pos_part (round2 a) + neg_part a + 5)
unfolding round2
round2_nearest (pos n) = omega arith
round2_nearest (negsuc n) = ground arith

pub percent_of-le : (base rate : ℕ) → rate ≤ 10_000 → percent_of base rate ≤ base
unfolding percent_of
percent_of-le base rate h = grind arith

pub cap_discount-le : (r : ℤ) (base : ℕ) → cap_discount r base ≤ base
unfolding cap_discount
cap_discount-le r base = omega arith
