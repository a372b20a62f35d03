-- ===== src/LimitOrders.antt =====
-- frontend/src/lib/limitOrders.ts: the trigger price of a limit order, and the data that a user signs.
pub mod Price
pub mod Tests
use flux_swap_dex.Common.{
  ℕ, suc, ◌+◌, ◌*◌, ◌/◌, ◌^◌, String, Bool, true, false, List, Option, none, some, if◌then◌else◌,
}
use flux_swap_dex.Common.Int.{ℤ, pos, negsuc}

pub record SignedLimitOrder : Type 0 where
  pub maker : String
  pub input_token : String
  pub output_token : String
  pub amount_in : ℤ
  pub min_amount_out : ℤ
  pub max_executor_reward_bps : ℤ
  pub trigger_price_x18 : ℤ
  pub expiry : ℤ
  pub nonce : ℤ
  pub recipient : String

-- `TypedDataDomain`
pub record Domain : Type 0 where
  pub name : String
  pub version : String
  pub chain_id : ℕ
  pub verifying_contract : String

unfoldable pub build_signed_limit_order_domain : ℕ → String → Domain
build_signed_limit_order_domain chain_id settlement_address = record {
  name = "Flux Signed Order Settlement";
  version = "1";
  chain_id = chain_id;
  verifying_contract = settlement_address;
}

-- The price of amounts that are positive, at 18 decimals, rounded down.
unfoldable pub positive_price : ℕ → ℕ → ℕ → ℕ → ℕ
positive_price amount_in min_amount_out input_decimals output_decimals =
    (min_amount_out * 10 ^ input_decimals * 10 ^ 18) / (amount_in * 10 ^ output_decimals)

unfoldable pub calculate_trigger_price_x18 : ℤ → ℤ → ℕ → ℕ → ℤ
unfolding positive_price
calculate_trigger_price_x18 (pos (suc a)) (pos (suc m)) input_decimals output_decimals =
    pos (positive_price (suc a) (suc m) input_decimals output_decimals)
calculate_trigger_price_x18 _ _ input_decimals output_decimals = pos 0

-- `zeroAddress` of viem
abbrev pub no_address : String
no_address = "0x0000000000000000000000000000000000000000"

unfoldable pub to_signed_limit_order_token_address : Option String → Bool → String
to_signed_limit_order_token_address address true = no_address
to_signed_limit_order_token_address none false = no_address
to_signed_limit_order_token_address (some token) false = token
