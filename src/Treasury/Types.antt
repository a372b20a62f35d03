-- ===== src/Treasury/Types.antt =====
-- admin-frontend/src/components/treasury/TreasuryTypes.ts, and what the components say to the outside:
-- contract calls, notices and the results of promises.
use flux_swap_dex.Common.{ℕ, String, Bool, true, false, not, List, Option, none, some}
use flux_swap_dex.Common.Int.{ℤ}
use flux_swap_dex.Common.Text.{is_empty}

pub data Kind : Type 0 where
  set_allowed_token set_allowed_recipient set_daily_spend_cap approve_spender : Kind
  revoke_spender set_guardian set_operator set_min_delay : Kind
  emergency_withdraw emergency_withdraw_eth : Kind

pub record Params : Type 0 where
  pub token : Option String
  pub token_symbol : Option String
  pub allowed : Option Bool
  pub recipient : Option String
  pub spender : Option String
  pub amount_units : Option String
  pub amount_display : Option String
  pub new_guardian : Option String
  pub new_operator : Option String
  pub new_min_delay : Option String
  pub withdraw_token : Option String
  pub withdraw_token_symbol : Option String
  pub withdraw_token_decimals : Option ℕ
  pub withdraw_recipient : Option String
  pub withdraw_amount_units : Option String
  pub withdraw_amount_display : Option String

abbrev pub no_params : Params
no_params = record {
  token = none;
  token_symbol = none;
  allowed = none;
  recipient = none;
  spender = none;
  amount_units = none;
  amount_display = none;
  new_guardian = none;
  new_operator = none;
  new_min_delay = none;
  withdraw_token = none;
  withdraw_token_symbol = none;
  withdraw_token_decimals = none;
  withdraw_recipient = none;
  withdraw_amount_units = none;
  withdraw_amount_display = none;
}

pub record Metadata : Type 0 where
  pub version : ℕ
  pub chain_id : ℕ
  pub treasury_address : String
  pub operation_id : String
  pub kind : Kind
  pub label : String
  pub summary : String
  pub params : Params
  pub created_at : ℕ

pub record TokenRow : Type 0 where
  pub address : String
  pub symbol : String
  pub name : String
  pub decimals : ℕ
  pub balance : ℤ
  pub approved_spend_remaining : ℤ
  pub daily_spend_cap : ℤ
  pub spent_today : ℤ
  pub allowed : Bool
  pub is_native : Option Bool

pub data Status : Type 0 where
  pending ready : Status

pub record OperationRow : Type 0 where
  pub operation_id : String
  pub execute_after : ℤ
  pub scheduler : Option String
  pub status : Status
  pub block_number : ℤ
  pub metadata : Option Metadata

-- An argument of a contract call.
pub data Arg : Type 0 where
  address hash : String → Arg
  flag : Bool → Arg
  amount : ℤ → Arg

-- A call of the treasury's contract: `functionName` and `args`.
pub record Call : Type 0 where
  pub to : String
  pub function_name : String
  pub args : List Arg

-- `{ kind: 'error', title, message }`
pub record Notice : Type 0 where
  pub title : String
  pub message : String

-- A promise that is kept, or that is rejected with a message.
pub data Promised {ℓ} (A : Type ℓ) : Type ℓ where
  resolved : A → Promised A
  rejected : String → Promised A

-- Whether an optional text counts as true: it is there and is not empty.
abbrev pub present : Option String → Bool
present none = false
present (some s) = not (is_empty s)

-- The text, where `present` has tested for one.
abbrev pub given : Option String → String
given none = ""
given (some s) = s

abbrev pub is_some : {A : Type 0} → Option A → Bool
is_some none = false
is_some (some _) = true

abbrev pub given_flag : Option Bool → Bool
given_flag none = false
given_flag (some b) = b
