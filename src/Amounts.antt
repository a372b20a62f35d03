-- ===== src/Amounts.antt =====
-- Amounts typed by a user: frontend/src/lib/amounts.ts and admin-frontend/src/lib/amounts.ts.
use Prim.Native.Char.{code}
use Prim.Native.String.{[], ◌∷◌}
use flux_swap_dex.Common.{ℕ, String, Bool, true, ◌&&◌, ◌||◌, Option, none, ◌==◌, if◌then◌else◌}
use flux_swap_dex.Common.Int.{ℤ}
use flux_swap_dex.Common.Text.{trim, is_empty, without_commas, is_digit, all_digits}

unfoldable pub is_decimal_input : String → Bool
unfolding all_digits
is_decimal_input [] = true
is_decimal_input (c ∷ s) = (is_digit c && is_decimal_input s) || (code c == b'.' && all_digits s)

-- viem's `parseUnits` is a parameter, which answers `none` where it throws.
unfoldable pub parse_amount : (String → ℕ → Option ℤ) → String → ℕ → Option ℤ
unfolding without_commas is_decimal_input trim
parse_amount parse_units value decimals =
    let normalized = trim (without_commas value) in
    if is_empty normalized
    then none
    else if is_decimal_input normalized
    then parse_units normalized decimals
    else none
