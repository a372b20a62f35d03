-- ===== src/Farm.antt =====
-- admin-frontend/src/components/farm: the farms and their administration.
pub mod Derived
pub mod Distribution
pub mod Actions
pub mod Tokens
pub mod Edits
pub mod Reading
pub mod Updates
pub mod Tests
use Prim.Native.Char.{code}
use Prim.Native.String.{[] as empty_text, ◌∷◌ as char_cons}
use flux_swap_dex.Common.{
  ℕ, ◌^◌, String, Bool, true, false, List, Option, none, some, if◌then◌else◌, ◌&&◌, ◌||◌, leb, ltb,
  ◌==◌, not,
}
use flux_swap_dex.Common.Int.{ℤ, pos}
use flux_swap_dex.Common.BigInt.{parse_big_int}
use flux_swap_dex.Common.Text.{trim, is_empty, without_commas, all_digits}

pub record TokenMeta : Type 0 where
  pub address : String
  pub label : String
  pub symbol : String
  pub decimals : ℕ
  pub is_lp : Bool

-- What the options of the two lists have in common.
pub record PoolOption : Type 0 where
  pub address : String
  pub label : String
  pub already_farmed : Bool

-- The amounts are what the contracts give, unsigned.
pub record FarmRow : Type 0 where
  pub pid : ℕ
  pub pool_address : String
  pub staking_token : TokenMeta
  pub reward_token : TokenMeta
  pub active : Bool
  pub alloc_point : ℕ
  pub reward_debt : ℕ
  pub pending_rewards : ℕ
  pub manager_pending_rewards : ℕ
  pub total_staked : ℕ
  pub reward_reserve : ℕ
  pub queued_rewards : ℕ

pub record TreasuryStatus : Type 0 where
  pub paused : Bool
  pub reward_balance : ℕ
  pub approved_spend_remaining : ℕ
  pub daily_spend_cap : ℕ
  pub spent_today : ℕ
  pub multisig : Option String
  pub operator : Option String

pub record AdminInfo : Type 0 where
  pub factory_owner : Option String
  pub manager_owner : Option String
  pub manager_operator : Option String
  pub treasury : Option String
  pub reward_token : Option TokenMeta
  pub total_alloc_point : ℕ
  pub total_pending_rewards : ℕ
  pub undistributed_rewards : ℕ
  pub pool_length : ℕ
  pub active_pool_count : ℕ
  pub treasury_status : Option TreasuryStatus
  pub treasury_status_error : Option String

abbrev pub reward_precision : ℕ
reward_precision = 10 ^ 18

abbrev pub max_alloc_point : ℕ
max_alloc_point = 1000000

-- `parseAllocPoint(value, { allowZero })`; `none` is `null`.
unfoldable pub parse_alloc_point : String → Bool → Option ℕ
unfolding trim without_commas all_digits parse_big_int
parse_alloc_point value allow_zero =
    let normalized = without_commas (trim value) in
    if is_empty normalized || not (all_digits normalized)
    then none
    else elim (parse_big_int normalized) [
      | some (pos n) ↦
          if ltb n (if allow_zero then 0 else 1) || ltb max_alloc_point n then none else some n
      | _ ↦ none
    ]

-- `Boolean(value)` of an optional text
abbrev pub present : Option String → Bool
present none = false
present (some s) = not (is_empty s)
