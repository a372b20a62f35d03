-- ===== src/Common/BigInt.antt =====
-- The text forms of a `bigint`: `value.toString()` and `BigInt(text)`.
pub mod RoundTrip
use Prim.Native.Nat.{ℕ, zero, suc, ◌+◌, ◌-◌, ◌*◌, ◌/◌, ◌%◌, ◌≤◌, ◌<◌}
use Prim.Native.Char.{Char, code}
use Prim.Native.String.{String, [], ◌∷◌}
use mathlib.Core.Path.{◌≡◌, refl, ◌∙◌, ap}
use mathlib.Core.Logic.{inl, inr}
use mathlib.Core.Bool.{Bool, true, false, ◌&&◌, ◌||◌}
use mathlib.Core.Option.{Option, none, some}
use native.Mathlib.Omega.{arith}
use flux_swap_dex.Common.Int.{ℤ, pos, negsuc}
use flux_swap_dex.Common.Tests.{ltb, leb, ◌==◌, if◌then◌else◌, Bool-cases}
use flux_swap_dex.Common.Text.{trim, trim_start, trim_end, is_space, is_blank}

unfoldable pub digit_char : ℕ → Char
digit_char d =
    if d == 0
    then "0"
    else if d == 1
    then "1"
    else if d == 2
    then "2"
    else if d == 3
    then "3"
    else if d == 4
    then "4"
    else if d == 5
    then "5"
    else if d == 6
    then "6"
    else if d == 7
    then "7"
    else if d == 8
    then "8"
    else "9"

-- The decimal digits of `n` in front of `out`, on fuel above `n`.
unfoldable pub emit : ℕ → ℕ → String → String
unfolding digit_char
emit zero n out = out
emit (suc fuel) n out =
    let rest = emit fuel (n / 10) (digit_char (n % 10) ∷ out) in
    if ltb n 10 then digit_char n ∷ out else rest

unfoldable pub nat_to_string : ℕ → String
unfolding emit
nat_to_string n = emit (suc n) n []

-- `value.toString()`
unfoldable pub to_string : ℤ → String
unfolding nat_to_string
to_string (pos n) = nat_to_string n
to_string (negsuc n) = "-" ∷ nat_to_string (suc n)

-- The value of a digit in a radix up to 16; 99 for any other character.
digit_value : ℕ → ℕ
digit_value c =
    if leb b'0' c && leb c b'9'
    then c - b'0'
    else if leb b'a' c && leb c b'f'
    then c - b'a' + 10
    else if leb b'A' c && leb c b'F'
    then c - b'A' + 10
    else 99

scan : ℕ → ℕ → String → Option ℕ
scan radix n [] = some n
scan radix n (c ∷ s) =
    let rest = scan radix (n * radix + digit_value (code c)) s in
    if ltb (digit_value (code c)) radix then rest else none

pub natural : ℕ → String → Option ℕ
natural radix [] = none
natural radix (c ∷ s) = scan radix 0 (c ∷ s)

-- A literal with no sign: hexadecimal, octal, binary or decimal.
unsigned : String → Option ℕ
unsigned (c ∷ d ∷ s) =
    if code c == b'0' && (code d == b'x' || code d == b'X')
    then natural 16 s
    else if code c == b'0' && (code d == b'o' || code d == b'O')
    then natural 8 s
    else if code c == b'0' && (code d == b'b' || code d == b'B')
    then natural 2 s
    else natural 10 (c ∷ d ∷ s)
unsigned s = natural 10 s

abbrev negated : ℕ → ℤ
negated zero = pos 0
negated (suc n) = negsuc n

abbrev signed : (ℕ → ℤ) → Option ℕ → Option ℤ
signed f none = none
signed f (some n) = some (f n)

literal : String → Option ℤ
literal [] = some (pos 0)
literal (c ∷ s) =
    if code c == b'-'
    then signed negated (natural 10 s)
    else if code c == b'+'
    then signed pos (natural 10 s)
    else signed pos (unsigned (c ∷ s))

-- `BigInt(text)`; `none` is the SyntaxError that it throws.
unfoldable pub parse_big_int : String → Option ℤ
unfolding literal unsigned natural scan digit_value trim
parse_big_int s = literal (trim s)

tests :
    (parse_big_int " 0x1F " ≡ some (pos 31))
    × (parse_big_int "-12" ≡ some (negsuc 11))
    × (parse_big_int "" ≡ some (pos 0))
    × (parse_big_int "1.5" ≡ none)
    × (to_string (pos 1234567890123456789) ≡ "1234567890123456789")
unfolding parse_big_int to_string
tests = (refl, refl, refl, refl, refl)
