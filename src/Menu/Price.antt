-- ===== src/Menu/Price.antt =====
-- `assertValidPrice` of backend/menu/service.ts, with the double arithmetic that its test of two
-- decimal places runs in. A price is the decimal number of tenths of a cent that the request holds.
use restaurant_pos.Base.{
  ℕ, suc, zero, ◌+◌, ◌-◌, ◌*◌, ◌/◌, ◌%◌, Bool, true, ◌&&◌, ◌||◌, ◌==◌, ltb, leb, if◌then◌else◌,
}
use Prim.Native.Nat.{◌^◌}
use restaurant_pos.Base.Int.{ℤ, pos, negsuc}
use restaurant_pos.Base.Result.{
  Result, ok, err, and_then, check, negative_price, price_too_high, price_places,
}

-- `PRICE_MAX`, 999999.99, in tenths of a cent
abbrev pub price_max : ℕ
price_max = 999_999_990

-- A quotient rounded to the nearest integer, a tie to the even one: how a double rounds.
unfoldable pub round_even : ℕ → ℕ → ℕ
round_even a d =
    let q = a / d in
    let r = a % d in if ltb d (2 * r) || (2 * r == d && q % 2 == 1) then suc q else q

-- The number of doublings that bring `a / d` to at least 2^52; 63 are enough for a price.
unfoldable pub doublings : ℕ → ℕ → ℕ → ℕ
doublings zero a d = 0
doublings (suc fuel) a d =
    let more = doublings fuel (2 * a) d in if leb (2 ^ 52 * d) a then 0 else suc more

-- The number of halvings that bring `a` below 2^53; 7 are enough for the product by 100.
unfoldable pub halvings : ℕ → ℕ → ℕ
halvings zero a = 0
halvings (suc fuel) a = let more = halvings fuel (a / 2) in if ltb a (2 ^ 53) then 0 else suc more

-- `Math.round(price * 100) === price * 100`: the product, computed in doubles, is an integer.
unfoldable pub has_two_places : ℕ → Bool
unfolding round_even doublings halvings
has_two_places zero = true
has_two_places (suc n) =
    let k = doublings 63 (suc n) 1000 in
    let mantissa = round_even (2 ^ k * suc n) 1000 in
    let j = halvings 7 (mantissa * 100) in
    let product = round_even (mantissa * 100) (2 ^ j) in leb k j || product % (2 ^ (k - j)) == 0

unfoldable pub assert_valid_price : ℤ → Result ℕ
unfolding has_two_places
assert_valid_price (negsuc n) = err negative_price
assert_valid_price (pos n) =
    and_then (check (leb n price_max) price_too_high)
      λ _. and_then (check (has_two_places n) price_places) λ _. ok ((n + 5) / 10)
