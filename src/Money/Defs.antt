-- ===== src/Money/Defs.antt =====
-- `round2`, `capDiscount` and the rates of backend/billing/service.ts. A rate is a number of
-- hundredths of a percent, a service charge rate one of thousandths, a quantity one of thousandths.
use restaurant_pos.Base.{ℕ, ◌+◌, ◌-◌, ◌*◌, ◌/◌, min, leb, if◌then◌else◌}
use restaurant_pos.Base.Int.{ℤ, pos, negsuc, pos_part}

-- `Math.round(x)` on tenths: half goes up, also below zero.
unfoldable pub round2 : ℤ → ℤ
round2 (pos n) = pos ((n + 5) / 10)
round2 (negsuc n) = if leb 5 n then negsuc ((n + 5) / 10 - 1) else pos 0

-- `Math.round(a / d)` for a quotient of naturals.
unfoldable pub round_div : ℕ → ℕ → ℕ
round_div a d = (2 * a + d) / (2 * d)

-- `round2(base * (rate / 100))`
unfoldable pub percent_of : ℕ → ℕ → ℕ
percent_of base rate = (base * rate + 5000) / 10_000

unfoldable pub service_of : ℕ → ℕ → ℕ
service_of base rate = (base * rate + 50_000) / 100_000

-- `round2(quantity * unitPrice)`
unfoldable pub gross_of : ℕ → ℕ → ℕ
gross_of quantity unit_price = (quantity * unit_price + 500) / 1000

-- `Math.min(Math.max(requested, 0), Math.max(remaining, 0))`
unfoldable pub cap_discount : ℤ → ℕ → ℕ
cap_discount requested remaining = min (pos_part requested) remaining
