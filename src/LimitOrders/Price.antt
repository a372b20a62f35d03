-- ===== src/LimitOrders/Price.antt =====
-- The trigger price as a rounded quotient.
use native.Mathlib.Nat.{div-mul-le_self, lt-div-mul-add, mul-pos, pow-le-pow_right}
use flux_swap_dex.Common.{ℕ, zero, suc, ◌+◌, ◌*◌, ◌/◌, ◌^◌, ◌≤◌, ◌<◌, ◌≡◌, refl, arith}
use flux_swap_dex.Common.Int.{pos}
use flux_swap_dex.LimitOrders.{positive_price, calculate_trigger_price_x18}

quotient_bounds : (n d : ℕ) → 0 < d → (n / d * d ≤ n) × (n < (n / d + 1) * d)
quotient_bounds n d h = (div-mul-le_self n d, grind (arith, lt-div-mul-add {a = n} {b = d} h))

scaled_positive : (a o : ℕ) → 0 < a → 0 < a * 10 ^ o
scaled_positive a o h =
    mul-pos h (omega (arith, pow-le-pow_right {n = 10} (omega arith) {i = 0} {j = o} (omega arith)))

-- The trigger price of positive amounts is the greatest number whose product with the amount that goes in,
-- at the decimals of the output, is at most the least amount that comes out, at the decimals of
-- the input and those of the price.
pub price_is_floor :
    (a m input_decimals output_decimals : ℕ)
    → 0 < a
    → 0 < m
    → (p : ℕ) × (calculate_trigger_price_x18 (pos a) (pos m) input_decimals output_decimals ≡ pos p)
      × (p * (a * 10 ^ output_decimals) ≤ m * 10 ^ input_decimals * 10 ^ 18)
      × (m * 10 ^ input_decimals * 10 ^ 18 < (p + 1) * (a * 10 ^ output_decimals))
unfolding calculate_trigger_price_x18 positive_price
price_is_floor zero m i o ha hm = absurd (omega arith)
price_is_floor (suc a) zero i o ha hm = absurd (omega arith)
price_is_floor (suc a) (suc m) i o ha hm =
    let (below, above) =
      quotient_bounds (suc m * 10 ^ i * 10 ^ 18) (suc a * 10 ^ o) (scaled_positive (suc a) o ha) in
    (positive_price (suc a) (suc m) i o, refl, below, above)
