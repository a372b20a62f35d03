-- ===== src/Treasury/Utils.antt =====
-- The helpers of admin-frontend/src/components/treasury/TreasuryUtils.ts, and `shortAddress` of
-- admin-frontend/src/components/AdminPrimitives.tsx.
use Prim.Native.String.{[], ◌∷◌, ◌++◌}
use flux_swap_dex.Common.{
  ℕ, zero, suc, ◌+◌, ◌-◌, ◌/◌, String, Bool, false, ◌&&◌, Option, none, some, str_eq, leb, ◌==◌,
  if◌then◌else◌,
}
use flux_swap_dex.Common.Int.{ℤ, pos, negsuc, ◌-ℤ◌, ltb_ℤ, leb_ℤ}
use flux_swap_dex.Common.Text.{to_lower_case, is_empty}
use flux_swap_dex.Common.BigInt.{nat_to_string}
use flux_swap_dex.Treasury.Types.{OperationRow, Status, pending, ready}

-- `s.slice(0, n)` and `s.slice(-n)`
unfoldable pub first_chars : ℕ → String → String
first_chars zero s = []
first_chars (suc n) [] = []
first_chars (suc n) (c ∷ s) = c ∷ first_chars n s

chars : String → ℕ
chars [] = 0
chars (c ∷ s) = suc (chars s)

skip_chars : ℕ → String → String
skip_chars zero s = s
skip_chars (suc n) [] = []
skip_chars (suc n) (c ∷ s) = skip_chars n s

unfoldable pub last_chars : ℕ → String → String
unfolding chars skip_chars
last_chars n s = skip_chars (chars s - n) s

unfoldable pub short_address : String → String
unfolding first_chars last_chars
short_address s = if is_empty s then "--" else first_chars 6 s ++ "..." ++ last_chars 4 s

unfoldable pub same_address : Option String → Option String → Bool
unfolding to_lower_case
same_address none right = false
same_address (some left) none = false
same_address (some left) (some right) =
    if is_empty left
    then false
    else if is_empty right
    then false
    else str_eq (to_lower_case left) (to_lower_case right)

-- `Math.round(hours / 24)` is the quotient of `hours + 12`.
duration_of : ℕ → String
unfolding nat_to_string
duration_of seconds =
    let minutes = seconds / 60 in
    let hours = seconds / 3600 in
    if leb 24 hours
    then nat_to_string ((hours + 12) / 24) ++ " 天"
    else if leb 1 hours
    then nat_to_string hours ++ " 小时"
    else nat_to_string (if minutes == 0 then 1 else minutes) ++ " 分钟"

unfoldable pub format_duration : ℤ → String
unfolding duration_of
format_duration (negsuc n) = "无延迟"
format_duration (pos zero) = "无延迟"
format_duration (pos (suc n)) = duration_of (suc n)

unfoldable pub subtract_floor : ℤ → ℤ → ℤ
unfolding ◌-ℤ◌
subtract_floor value used = if ltb_ℤ used value then value -ℤ used else pos 0

-- The comparator of the operations table: negative where `left` comes first.
unfoldable pub by_status : Status → Status → ℤ → ℤ
by_status ready pending rest = negsuc 0
by_status pending ready rest = pos 1
by_status ready ready rest = rest
by_status pending pending rest = rest

abbrev pub eq_ℤ : ℤ → ℤ → Bool
eq_ℤ a b = leb_ℤ a b && leb_ℤ b a

unfoldable pub sort_operations : OperationRow → OperationRow → ℤ
unfolding by_status
sort_operations left right = by_status left.status right.status (
    if eq_ℤ left.execute_after right.execute_after
    then (if ltb_ℤ right.block_number left.block_number then negsuc 0 else pos 1)
    else if ltb_ℤ left.execute_after right.execute_after
    then negsuc 0
    else pos 1)
