-- ===== src/ErrorMessages.antt =====
-- frontend/src/lib/errors.ts: the message that a user sees for an error.
-- Objects stand in a heap, so that an error may be its own cause; the loop over the causes runs on fuel.
pub mod Causes
pub mod Tests
use Prim.Native.Nat.{◌+◌}
use Prim.Native.Char.{Char, code}
use Prim.Native.String.{[] as empty_text, ◌∷◌ as char_cons}
use flux_swap_dex.Common.{
  ℕ, zero, suc, String, Bool, true, false, ◌||◌, ◌&&◌, List, [], ◌∷◌, ◌++◌, Option, none, some,
  str_eq, ◌==◌, leb, any, map, if◌then◌else◌,
}
use flux_swap_dex.Common.Text.{trim, to_lower_case, is_empty, includes}

-- A thrown value: an object of the heap, or a value that is none.
pub data Thrown : Type 0 where
  plain : Thrown
  object : ℕ → Thrown

-- What the program reads of an object: the message of an `Error`, the two texts that viem adds where they
-- are texts, and the cause where there is one.
pub record ErrorObject : Type 0 where
  pub message : Option String
  pub short_message : Option String
  pub details : Option String
  pub cause : Option Thrown

abbrev pub Heap : Type 0
Heap = ℕ → ErrorObject

unfoldable pub contains : String → List String → Bool
contains s [] = false
contains s (x ∷ xs) = str_eq x s || contains s xs

-- `messages.add(s)`, for a set that keeps the order of insertion.
unfoldable pub add_text : String → List String → List String
unfolding contains
add_text s xs = if contains s xs then xs else xs ++ s ∷ []

unfoldable pub add_option : Option String → List String → List String
unfolding add_text
add_option none xs = xs
add_option (some s) xs = add_text s xs

abbrev pub unless_empty : Option String → Option String
unless_empty none = none
unless_empty (some s) = if is_empty s then none else some s

unfoldable pub gathered : ErrorObject → List String → List String
unfolding add_option
gathered o xs =
    add_option o.details (add_option o.short_message (add_option (unless_empty o.message) xs))

abbrev pub causes : Option Thrown → List Thrown
causes none = []
causes (some t) = t ∷ []

-- The loop over the queue; `none` where the fuel runs out.
unfoldable pub collect_loop : ℕ → Heap → List Thrown → List String → Option (List String)
unfolding gathered
collect_loop fuel heap [] xs = some xs
collect_loop zero heap (t ∷ queue) xs = none
collect_loop (suc fuel) heap (plain ∷ queue) xs = collect_loop fuel heap queue xs
collect_loop (suc fuel) heap (object r ∷ queue) xs =
    collect_loop fuel heap (queue ++ causes (heap r).cause) (gathered (heap r) xs)

unfoldable pub collect_error_messages : ℕ → Heap → Thrown → Option (List String)
unfolding collect_loop
collect_error_messages fuel heap error = collect_loop fuel heap (error ∷ []) []

pub record FormatErrorMessageOptions : Type 0 where
  pub rejected_message : Option String
  pub fallback_message : Option String

unfoldable pub includes_any : List String → String → Bool
unfolding includes
includes_any patterns value = any (includes value) patterns

-- `text.length`, in units of 16 bits.
unfoldable pub text_length : String → ℕ
text_length empty_text = 0
text_length (char_cons c s) = (if leb 65536 (code c) then 2 else 1) + text_length s

abbrev pub or_text : Option String → String → String
or_text none fallback = fallback
or_text (some s) fallback = s

unfoldable pub first_or_fallback : List String → String → String
unfolding trim text_length
first_or_fallback [] fallback = fallback
first_or_fallback (x ∷ xs) fallback = if leb (text_length (trim x)) 120 then trim x else fallback

abbrev pub rejections : List String
rejections =
    "user denied" ∷ "user rejected" ∷ "denied transaction signature" ∷ "rejected the request" ∷ []

unfoldable pub message_for : FormatErrorMessageOptions → List String → String
unfolding includes_any first_or_fallback to_lower_case
message_for options messages =
    let normalized = map to_lower_case messages in
    if any (includes_any rejections) normalized
    then or_text options.rejected_message "你已取消本次操作"
    else if any
        (includes_any (
          "insufficient funds" ∷ "insufficient balance" ∷ "exceeds balance"
          ∷ "transfer amount exceeds balance" ∷ []))
        normalized
    then "余额不足，请检查钱包余额后重试。"
    else if any
        (includes_any (
          "excessive_input_amount" ∷ "insufficient_output_amount" ∷ "insufficient liquidity"
          ∷ "slippage" ∷ []))
        normalized
    then "交易价格或池子状态已变化，请刷新报价或调高滑点后重试。"
    else if any
        (includes_any (
          "execution reverted" ∷ "reverted with the following reason" ∷ "contract function"
          ∷ "contract call" ∷ []))
        normalized
    then "链上交易执行失败，请检查数量、滑点、余额或池子状态后重试。"
    else if any
        (includes_any
          ("rpc submit" ∷ "internal error" ∷ "network error" ∷ "failed to fetch" ∷ "timeout" ∷ []))
        normalized
    then "RPC 或网络暂时异常，请稍后重试。"
    else first_or_fallback messages (or_text options.fallback_message "操作失败，请稍后重试。")

unfoldable pub format_error_message : ℕ → Heap → Thrown → FormatErrorMessageOptions → Option String
unfolding collect_error_messages message_for
format_error_message fuel heap error options = elim (collect_error_messages fuel heap error) [
  | none ↦ none
  | some messages ↦ some (message_for options messages)
]
