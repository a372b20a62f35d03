-- ===== src/Common/Text.antt =====
-- The texts of the program (`string`) as native strings: trimming and case.
use Prim.Native.Nat.{ℕ}
use Prim.Native.Char.{Char, code}
use Prim.Native.String.{String, [], ◌∷◌}
use mathlib.Core.Path.{◌≡◌, refl}
use mathlib.Core.Logic.{inl, inr}
use mathlib.Core.Bool.{Bool, true, false, ◌&&◌, ◌||◌}
use native.Mathlib.Omega.{arith}
use flux_swap_dex.Common.Tests.{leb, ◌==◌, if◌then◌else◌, Bool-cases}

-- The white space and line terminators that `trim` removes.
unfoldable pub is_space : ℕ → Bool
is_space c =
    (leb 9 c && leb c 13)
    || c == 32
    || c == 160
    || c == 5760
    || (leb 8192 c && leb c 8202)
    || c == 8232
    || c == 8233
    || c == 8239
    || c == 8287
    || c == 12288
    || c == 65279

unfoldable pub trim_start : String → String
trim_start [] = []
trim_start (c ∷ s) = if is_space (code c) then trim_start s else c ∷ s

unfoldable pub is_blank : String → Bool
is_blank [] = true
is_blank (c ∷ s) = is_space (code c) && is_blank s

unfoldable pub trim_end : String → String
trim_end [] = []
trim_end (c ∷ s) = if is_space (code c) && is_blank s then [] else c ∷ trim_end s

-- `s.trim()`
unfoldable pub trim : String → String
unfolding trim_start trim_end is_blank is_space
trim s = trim_end (trim_start s)

abbrev pub is_empty : String → Bool
is_empty [] = true
is_empty (c ∷ s) = false

is_blank-trim_end : (s : String) → is_blank (trim_end s) ≡ is_blank s
unfolding trim_end is_blank
is_blank-trim_end [] = refl
is_blank-trim_end (c ∷ s) = elim (Bool-cases (is_space (code c) && is_blank s)) [
  | inl e ↦ rw e
  | inr e ↦ rw (e, is_blank-trim_end s, e)
]

trim_end_idem : (s : String) → trim_end (trim_end s) ≡ trim_end s
unfolding trim_end is_blank
trim_end_idem [] = refl
trim_end_idem (c ∷ s) = elim (Bool-cases (is_space (code c) && is_blank s)) [
  | inl e ↦ rw e
  | inr e ↦ rw (e, is_blank-trim_end s, e, trim_end_idem s)
]

trim_start-trim_end-trim_start :
    (s : String) → trim_start (trim_end (trim_start s)) ≡ trim_end (trim_start s)
unfolding trim_start trim_end
trim_start-trim_end-trim_start [] = refl
trim_start-trim_end-trim_start (c ∷ s) = ground (arith, trim_start-trim_end-trim_start s)

-- A trimmed text is not changed by trimming it again.
pub trim_idem : (s : String) → trim (trim s) ≡ trim s
unfolding trim
trim_idem s = rw (trim_start-trim_end-trim_start s) (trim_end_idem (trim_start s))

-- A text that holds only white space is empty once trimmed, and no other text is.
pub is_empty-trim : (s : String) → is_empty (trim s) ≡ is_blank s
unfolding trim trim_start trim_end is_blank
is_empty-trim [] = refl
is_empty-trim (c ∷ s) = ground (arith, is_empty-trim s)

-- The character of the second text at the place where the first has `c`; `c` itself if it has none.
replaced : String → String → Char → Char
replaced (u ∷ us) (l ∷ ls) c = if code c == code u then l else replaced us ls c
replaced _ _ c = c

lower_char : Char → Char
unfolding replaced
lower_char = replaced "ABCDEFGHIJKLMNOPQRSTUVWXYZ" "abcdefghijklmnopqrstuvwxyz"

-- `s.toLowerCase()`, for texts over ASCII.
unfoldable pub to_lower_case : String → String
unfolding lower_char
to_lower_case [] = []
to_lower_case (c ∷ s) = lower_char c ∷ to_lower_case s

unfoldable pub starts_with : String → String → Bool
starts_with s [] = true
starts_with [] (p ∷ ps) = false
starts_with (c ∷ s) (p ∷ ps) = code c == code p && starts_with s ps

-- `value.includes(pattern)`
unfoldable pub includes : String → String → Bool
unfolding starts_with
includes [] pattern = starts_with [] pattern
includes (c ∷ s) pattern = starts_with (c ∷ s) pattern || includes s pattern

-- `value.replace(/,/g, '')`
unfoldable pub without_commas : String → String
without_commas [] = []
without_commas (c ∷ s) = if code c == b',' then without_commas s else c ∷ without_commas s

abbrev pub is_digit : Char → Bool
is_digit c = leb b'0' (code c) && leb (code c) b'9'

-- `/^\d*$/` and `/^\d*(\.\d*)?$/`
unfoldable pub all_digits : String → Bool
all_digits [] = true
all_digits (c ∷ s) = is_digit c && all_digits s
