-- ===== src/Treasury/Forms.antt =====
-- admin-frontend/src/components/treasury/TreasuryOperationDraft.ts: the form of an operation, and the
-- delay that it asks for.
use flux_swap_dex.Common.{
  ℕ, String, Bool, true, ◌&&◌, ◌||◌, List, Option, none, some, if◌then◌else◌,
}
use flux_swap_dex.Common.Int.{ℤ, pos, ltb_ℤ, leb_ℤ}
use flux_swap_dex.Common.Text.{trim, is_empty}
use flux_swap_dex.Common.BigInt.{parse_big_int}
use flux_swap_dex.Treasury.Types.{Kind, Params, Arg, Notice}
use flux_swap_dex.Treasury.Utils.{format_duration}

-- What the code uses of viem.
pub record Viem : Type 0 where
  pub is_address : String → Bool
  pub parse_units : String → ℕ → Option ℤ

pub record TokenOption : Type 0 where
  pub address : String
  pub symbol : String
  pub name : String
  pub decimals : ℕ

pub record Form : Type 0 where
  pub has_client : Bool
  pub chain_id : ℕ
  pub treasury_address : Option String
  pub treasury_min_delay : Option ℤ
  pub operation_kind : Kind
  pub selected_token : Option TokenOption
  pub boolean_value : String
  pub target_address : String
  pub spender_address : String
  pub amount_value : String
  pub effective_delay_seconds : String
  pub new_min_delay_value : String
  pub withdraw_recipient_address : String
  pub withdraw_amount_value : String

-- What the draft records once the operation's id is known.
pub record Plan : Type 0 where
  pub function_name : String
  pub args : List Arg
  pub label : String
  pub summary : String
  pub params : Params

-- A draft is refused with a notice, fails on a text that is no number, or asks the contract for the id.
pub data Draft : Type 0 where
  refused : Notice → Draft
  failed : Draft
  planned : Plan → Draft

unfoldable pub invalid : String → Draft
invalid message = refused (record { title = "参数无效"; message = message })

abbrev pub allow_word : Bool → String
allow_word allowed = if allowed then "允许" else "移除"

-- `!value || value <= ZERO_BIGINT`
abbrev pub not_positive : Option ℤ → Bool
not_positive none = true
not_positive (some n) = leb_ℤ n (pos 0)

abbrev pub units_of : Option ℤ → ℤ
units_of none = pos 0
units_of (some n) = n

-- `amountValue || '0'`
abbrev pub or_zero : String → String
or_zero s = if is_empty s then "0" else s

abbrev pub plan : String → List Arg → String → String → Params → Draft
plan function_name args label summary params = planned (record {
  function_name = function_name;
  args = args;
  label = label;
  summary = summary;
  params = params;
})

-- The delay typed in, or the contract's; the outer `none` is a text that is no number.
unfoldable pub delay_of : Form → Option (Option ℤ)
delay_of f =
    if is_empty (trim f.effective_delay_seconds)
    then some f.treasury_min_delay
    else elim (parse_big_int (trim f.effective_delay_seconds)) [
      | none ↦ none
      | some n ↦ some (some n)
    ]

-- `!delay || delay < (treasuryMinDelay ?? ZERO_BIGINT)`
unfoldable pub too_short : Option ℤ → Option ℤ → Bool
too_short none least = true
too_short (some d) least = (leb_ℤ d (pos 0) && leb_ℤ (pos 0) d) || ltb_ℤ d (units_of least)

unfoldable pub shown_delay : Option ℤ → String
unfolding format_duration
shown_delay none = "--"
shown_delay (some d) = if leb_ℤ d (pos 0) && leb_ℤ (pos 0) d then "--" else format_duration d
