-- ===== src/LimitOrders/Tests.antt =====
-- The price of an order that gives 2 units of 6 decimals for 3 of 18 decimals.
use flux_swap_dex.Common.{ℕ, ◌+◌, ◌*◌, ◌^◌, ◌≤◌, ◌<◌, ◌≡◌, refl, arith}
use flux_swap_dex.Common.Int.{pos}
use flux_swap_dex.LimitOrders.{calculate_trigger_price_x18}
use flux_swap_dex.LimitOrders.Price.{price_is_floor}

one_and_a_half :
    calculate_trigger_price_x18 (pos 2000000) (pos 3000000000000000000) 6 18
    ≡ pos 1500000000000000000
unfolding calculate_trigger_price_x18
one_and_a_half = refl

two_millions : 0 < 2000000
two_millions = omega arith

three_units : 0 < 3000000000000000000
three_units = omega arith

price_is_floor_example :
    (p : ℕ) × (calculate_trigger_price_x18 (pos 2000000) (pos 3000000000000000000) 6 18 ≡ pos p)
    × (p * (2000000 * 10 ^ 18) ≤ 3000000000000000000 * 10 ^ 6 * 10 ^ 18)
    × (3000000000000000000 * 10 ^ 6 * 10 ^ 18 < (p + 1) * (2000000 * 10 ^ 18))
price_is_floor_example = price_is_floor 2000000 3000000000000000000 6 18 two_millions three_units
