-- ===== src/Menu/Doubles.antt =====
-- The fuel of the double arithmetic of Menu/Price.
use restaurant_pos.Base.{
  ℕ, zero, suc, ◌*◌, ◌/◌, ◌≤◌, ◌<◌, ◌≡◌, ◌∙◌, ap, subst, inl, inr, arith, leb, ltb, Bool-cases,
}
use Prim.Native.Nat.{◌^◌}
use native.Mathlib.Nat.{pow-suc, mul_assoc}
use restaurant_pos.Menu.Price.{price_max, round_even, doublings, halvings}

double_in : (k a : ℕ) → 2 ^ suc k * a ≡ 2 ^ k * (2 * a)
double_in k a = ap (λ p. p * a) (pow-suc 2 k) ∙ mul_assoc (2 ^ k) 2 a

-- If `fuel` doublings would do, those that are made do.
doublings-reach :
    (fuel a d : ℕ) → 2 ^ 52 * d ≤ 2 ^ fuel * a → 2 ^ 52 * d ≤ 2 ^ doublings fuel a d * a
unfolding doublings
doublings-reach zero a d h = h
doublings-reach (suc fuel) a d h = elim (Bool-cases (leb (2 ^ 52 * d) a)) [
  | inl t ↦ ground arith
  | inr f ↦
      let enough : 2 ^ 52 * d ≤ 2 ^ fuel * (2 * a) =
        subst (λ z. 2 ^ 52 * d ≤ z) (double_in fuel a) h in
      let later = doublings-reach fuel (2 * a) d enough in
      let one_more = double_in (doublings fuel (2 * a) d) a in ground arith
]

-- The doublings of Menu/Price bring every price that is not zero to a mantissa of 53 bits.
pub doublings_enough : (n : ℕ) → 2 ^ 52 * 1000 ≤ 2 ^ doublings 63 (suc n) 1000 * suc n
doublings_enough n = doublings-reach 63 (suc n) 1000 (ground arith)

doublings-below : (fuel a d : ℕ) → a < 2 ^ 53 * d → 2 ^ doublings fuel a d * a < 2 ^ 53 * d
unfolding doublings
doublings-below zero a d h = ground arith
doublings-below (suc fuel) a d h = elim (Bool-cases (leb (2 ^ 52 * d) a)) [
  | inl t ↦ ground arith
  | inr f ↦
      let later = doublings-below fuel (2 * a) d (ground arith) in
      let one_more = double_in (doublings fuel (2 * a) d) a in ground arith
]

twice_power : (k : ℕ) → 2 ^ 53 * 2 ^ suc k ≡ 2 * (2 ^ 53 * 2 ^ k)
twice_power k = let step = pow-suc 2 k in omega arith

halvings-reach : (fuel a : ℕ) → a < 2 ^ 53 * 2 ^ fuel → a < 2 ^ 53 * 2 ^ halvings fuel a
unfolding halvings
halvings-reach zero a h = h
halvings-reach (suc fuel) a h = elim (Bool-cases (ltb a (2 ^ 53))) [
  | inl t ↦ ground arith
  | inr f ↦
      let step = twice_power fuel in
      let later = halvings-reach fuel (a / 2) (omega arith) in
      let one_more = twice_power (halvings fuel (a / 2)) in ground arith
]

round_even-le : (a m : ℕ) → a < m * 1000 → round_even a 1000 ≤ m
unfolding round_even
round_even-le a m h = ground arith

-- The halvings of Menu/Price bring the product of a price, up to the maximum, below 2^53.
pub halvings_enough :
    (n : ℕ)
    → suc n ≤ price_max
    → round_even (2 ^ doublings 63 (suc n) 1000 * suc n) 1000 * 100
      < 2 ^ 53 * 2 ^ halvings 7 (round_even (2 ^ doublings 63 (suc n) 1000 * suc n) 1000 * 100)
halvings_enough n h =
    let below = doublings-below 63 (suc n) 1000 (omega arith) in
    let mantissa = round_even-le (2 ^ doublings 63 (suc n) 1000 * suc n) (2 ^ 53) below in
    halvings-reach 7 (round_even (2 ^ doublings 63 (suc n) 1000 * suc n) 1000 * 100) (omega arith)
