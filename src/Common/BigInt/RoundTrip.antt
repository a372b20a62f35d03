-- ===== src/Common/BigInt/RoundTrip.antt =====
-- Reading a printed `bigint` gives it back.
use Prim.Native.Nat.{ℕ, zero, suc, ◌+◌, ◌-◌, ◌*◌, ◌/◌, ◌%◌, ◌≤◌, ◌<◌}
use Prim.Native.Char.{code}
use Prim.Native.String.{String, [], ◌∷◌}
use mathlib.Core.Path.{◌≡◌, refl, ◌∙◌, ap}
use mathlib.Core.Logic.{inl, inr}
use mathlib.Core.Bool.{true, false}
use mathlib.Core.Option.{some}
use native.Mathlib.Omega.{arith}
use flux_swap_dex.Common.Int.{ℤ, pos, negsuc}
use flux_swap_dex.Common.Tests.{ltb, ◌==◌, Bool-cases, every_below, every_below_holds}
use flux_swap_dex.Common.Text.{trim, trim_start, trim_end, is_space, is_empty}
use flux_swap_dex.Common.BigInt.{
  digit_char, emit, nat_to_string, to_string, digit_value, scan, natural, unsigned, literal,
  parse_big_int, signed, negated,
}

abbrev pub IsDigit : ℕ → Type 0
IsDigit c = (b'0' ≤ c) × (c ≤ b'9')

abbrev pub AllDigits : String → Type 0
AllDigits [] = Unit
AllDigits (c ∷ s) = IsDigit (code c) × AllDigits s

digit_table : every_below 10 (λ k. code (digit_char k) == b'0' + k) ≡ true
unfolding every_below digit_char
digit_table = refl

code-digit_char : (d : ℕ) → d < 10 → code (digit_char d) ≡ b'0' + d
code-digit_char d h =
    let e = every_below_holds (λ k. code (digit_char k) == b'0' + k) d 10 h digit_table in
    ground arith

digit_value-digit : (c : ℕ) → IsDigit c → digit_value c ≡ c - b'0'
unfolding digit_value
digit_value-digit c h = ground arith

digit_value-digit_char : (d : ℕ) → d < 10 → digit_value (code (digit_char d)) ≡ d
digit_value-digit_char d h =
    let e = code-digit_char d h in
    rw e (digit_value-digit (b'0' + d) (omega arith, omega arith) ∙ omega arith)

scan_digit : (d n : ℕ) (s : String) → d < 10 → scan 10 n (digit_char d ∷ s) ≡ scan 10 (n * 10 + d) s
unfolding scan
scan_digit d n s h = rw (digit_value-digit_char d h) (ground arith)

-- The printed digits are read back in front of any further text.
scan-emit : (fuel n : ℕ) (out : String) → n < fuel → scan 10 0 (emit fuel n out) ≡ scan 10 n out
unfolding emit
scan-emit zero n out h = absurd (omega arith)
scan-emit (suc fuel) n out h = elim (Bool-cases (ltb n 10)) [
  | inl small ↦ rw small (scan_digit n 0 out (ground arith) ∙ ap (λ k. scan 10 k out) (omega arith))
  | inr large ↦ rw large (
      scan-emit fuel (n / 10) (digit_char (n % 10) ∷ out) (ground arith)
      ∙ scan_digit (n % 10) (n / 10) out (omega arith)
      ∙ ap (λ k. scan 10 k out) (omega arith))
]

digit_char-IsDigit : (d : ℕ) → d < 10 → IsDigit (code (digit_char d))
digit_char-IsDigit d h = let e = code-digit_char d h in omega arith

-- Printing puts digits in front, and at least one.
emit-AllDigits : (fuel n : ℕ) (out : String) → AllDigits out → AllDigits (emit fuel n out)
unfolding emit
emit-AllDigits zero n out h = h
emit-AllDigits (suc fuel) n out h = elim (Bool-cases (ltb n 10)) [
  | inl small ↦ rw small (digit_char-IsDigit n (ground arith), h)
  | inr large ↦ rw large (
      emit-AllDigits fuel (n / 10) (digit_char (n % 10) ∷ out)
        (digit_char-IsDigit (n % 10) (omega arith), h))
]

abbrev IsFilled : String → Type 0
IsFilled [] = ⊥
IsFilled (c ∷ s) = Unit

emit-IsFilled_of : (fuel n : ℕ) (out : String) → IsFilled out → IsFilled (emit fuel n out)
unfolding emit
emit-IsFilled_of zero n out h = h
emit-IsFilled_of (suc fuel) n out h = elim (Bool-cases (ltb n 10)) [
  | inl small ↦ rw small tt
  | inr large ↦ rw large (emit-IsFilled_of fuel (n / 10) (digit_char (n % 10) ∷ out) tt)
]

emit-IsFilled : (fuel n : ℕ) (out : String) → IsFilled (emit (suc fuel) n out)
unfolding emit
emit-IsFilled fuel n out = elim (Bool-cases (ltb n 10)) [
  | inl small ↦ rw small tt
  | inr large ↦ rw large (emit-IsFilled_of fuel (n / 10) (digit_char (n % 10) ∷ out) tt)
]

is_space-digit : (c : ℕ) → IsDigit c → is_space c ≡ false
unfolding is_space
is_space-digit c h = ground arith

trim_end-AllDigits : (s : String) → AllDigits s → trim_end s ≡ s
unfolding trim_end
trim_end-AllDigits [] h = refl
trim_end-AllDigits (c ∷ s) (h, hs) = rw (is_space-digit (code c) h, trim_end-AllDigits s hs)

trim-AllDigits : (s : String) → AllDigits s → trim s ≡ s
unfolding trim trim_start
trim-AllDigits [] h = unfold trim_end in refl
trim-AllDigits (c ∷ s) (h, hs) = rw (is_space-digit (code c) h) (trim_end-AllDigits (c ∷ s) (h, hs))

unsigned-AllDigits : (s : String) → AllDigits s → unsigned s ≡ natural 10 s
unfolding unsigned
unsigned-AllDigits [] h = refl
unsigned-AllDigits (c ∷ []) h = refl
unsigned-AllDigits (c ∷ d ∷ s) (h, (k, _)) = ground arith

literal-AllDigits : (s : String) → AllDigits s → IsFilled s → literal s ≡ signed pos (natural 10 s)
unfolding literal
literal-AllDigits [] h f = absurd f
literal-AllDigits (c ∷ s) (h, hs) f =
    let plain = unsigned-AllDigits (c ∷ s) (h, hs) in ground (arith, plain)

natural-scan : (s : String) → IsFilled s → natural 10 s ≡ scan 10 0 s
unfolding natural
natural-scan [] h = absurd h
natural-scan (c ∷ s) h = refl

pub natural-nat_to_string : (n : ℕ) → natural 10 (nat_to_string n) ≡ some n
unfolding nat_to_string
natural-nat_to_string n =
    natural-scan _ (emit-IsFilled n n [])
    ∙ scan-emit (suc n) n [] (omega arith)
    ∙ unfold scan in refl

trim-minus : (s : String) → AllDigits s → trim ("-" ∷ s) ≡ "-" ∷ s
unfolding trim
trim-minus s h = rw (trim_end-AllDigits s h)

-- `BigInt(value.toString())` is the value.
pub parse_big_int-to_string : (z : ℤ) → parse_big_int (to_string z) ≡ some z
unfolding parse_big_int to_string
parse_big_int-to_string (pos n) =
    let digits = emit-AllDigits (suc n) n [] tt in
    let filled = emit-IsFilled n n [] in
    ap literal (trim-AllDigits (nat_to_string n) digits)
    ∙ literal-AllDigits (nat_to_string n) digits filled
    ∙ ap (signed pos) (natural-nat_to_string n)
parse_big_int-to_string (negsuc n) =
    ap literal (trim-minus (nat_to_string (suc n)) (emit-AllDigits (suc (suc n)) (suc n) [] tt))
    ∙ unfold literal in ap (signed negated) (natural-nat_to_string (suc n))

is_empty-IsFilled : (s : String) → IsFilled s → is_empty s ≡ false
is_empty-IsFilled [] h = absurd h
is_empty-IsFilled (c ∷ s) h = refl

-- A printed `bigint` is no empty text.
pub is_empty-to_string : (z : ℤ) → is_empty (to_string z) ≡ false
unfolding to_string
is_empty-to_string (pos n) = is_empty-IsFilled (nat_to_string n) (emit-IsFilled n n [])
is_empty-to_string (negsuc n) = refl

pub trim-nat_to_string : (n : ℕ) → trim (nat_to_string n) ≡ nat_to_string n
unfolding nat_to_string
trim-nat_to_string n = trim-AllDigits (nat_to_string n) (emit-AllDigits (suc n) n [] tt)

pub is_empty-nat_to_string : (n : ℕ) → is_empty (nat_to_string n) ≡ false
unfolding nat_to_string
is_empty-nat_to_string n = is_empty-IsFilled (nat_to_string n) (emit-IsFilled n n [])

pub trim-to_string : (z : ℤ) → trim (to_string z) ≡ to_string z
unfolding to_string
trim-to_string (pos n) = trim-nat_to_string n
trim-to_string (negsuc n) =
    trim-minus (nat_to_string (suc n)) (emit-AllDigits (suc (suc n)) (suc n) [] tt)

pub nat_to_string-AllDigits : (n : ℕ) → AllDigits (nat_to_string n)
unfolding nat_to_string
nat_to_string-AllDigits n = emit-AllDigits (suc n) n [] tt
