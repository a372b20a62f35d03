-- ===== src/Farm/Tokens.antt =====
-- admin-frontend/src/components/farm: FarmTokenReaders.ts and FarmPairOptionReaders.ts. Of a pair's option, the
-- symbols of the two tokens, which the list of the page shows, are left out.
use Prim.Native.String.{◌++◌}
use flux_swap_dex.Common.{
  ℕ, zero, suc, String, true, false, List, [], ◌∷◌, Option, none, some, if◌then◌else◌, any, str_eq,
}
use flux_swap_dex.Common.Text.{to_lower_case, is_empty}
use flux_swap_dex.Treasury.Utils.{same_address}
use flux_swap_dex.Api.Values.{Attempt, ok, failed, ◌>>=◌}
use flux_swap_dex.Farm.{TokenMeta, PoolOption}

-- The calls of the contracts of tokens, pairs and the swap factory.
pub record TokenReads : Type 0 where
  pub token0 : String → Attempt String
  pub token1 : String → Attempt String
  pub decimals : String → Attempt ℕ
  pub symbol : String → Attempt String
  pub all_pairs_length : String → Attempt ℕ
  pub all_pairs : String → ℕ → Attempt String

unfoldable pub normalize_symbol : String → String → Option String → String
unfolding same_address
normalize_symbol symbol token_address wrapped_native =
    if same_address (some token_address) wrapped_native
    then "ETH"
    else if is_empty symbol
    then "TOKEN"
    else symbol

module _ (r : TokenReads) (wrapped_native : Option String) where
  unfoldable pub pair_meta : String → Attempt TokenMeta
  unfolding normalize_symbol
  pair_meta token_address = do
    token0 ← r.token0 token_address
    token1 ← r.token1 token_address
    decimals ← r.decimals token_address
    symbol0 ← r.symbol token0
    symbol1 ← r.symbol token1
    let first = normalize_symbol symbol0 token0 wrapped_native
    let second = normalize_symbol symbol1 token1 wrapped_native
    ok (record {
      address = token_address;
      label = first ++ (" / " ++ second);
      symbol = first ++ ("-" ++ (second ++ " LP"));
      decimals = decimals;
      is_lp = true;
    })

  symbol_or : String → Attempt String → String
  unfolding normalize_symbol
  symbol_or token_address (ok symbol) = normalize_symbol symbol token_address wrapped_native
  symbol_or token_address (failed e) = "TOKEN"

  abbrev decimals_or : Attempt ℕ → ℕ
  decimals_or (ok decimals) = decimals
  decimals_or (failed e) = 18

  unfoldable pub token_meta : String → TokenMeta
  unfolding symbol_or
  token_meta token_address = record {
    address = token_address;
    label = symbol_or token_address (r.symbol token_address);
    symbol = symbol_or token_address (r.symbol token_address);
    decimals = decimals_or (r.decimals token_address);
    is_lp = false;
  }

  -- A token is read as a pair, and where that fails as a plain one: this does not fail.
  unfoldable pub read_farm_token_meta : String → TokenMeta
  unfolding pair_meta token_meta
  read_farm_token_meta token_address = elim (pair_meta token_address) [
    | ok meta ↦ meta
    | failed e ↦ token_meta token_address
  ]

  unfoldable pub lp_pair_option : List String → String → PoolOption
  unfolding read_farm_token_meta to_lower_case
  lp_pair_option existing pair = record {
    address = pair;
    label = (read_farm_token_meta pair).label;
    already_farmed = any (λ e. str_eq e (to_lower_case pair)) existing;
  }

  unfoldable pub pair_options_from : List String → String → ℕ → ℕ → Attempt (List PoolOption)
  unfolding lp_pair_option
  pair_options_from existing factory index zero = ok []
  pair_options_from existing factory index (suc count) = do
    pair ← r.all_pairs factory index
    rest ← pair_options_from existing factory (suc index) count
    ok (lp_pair_option existing pair ∷ rest)

  unfoldable pub read_lp_pair_options : List String → Option String → Attempt (List PoolOption)
  unfolding pair_options_from
  read_lp_pair_options existing none = ok []
  read_lp_pair_options existing (some factory) =
      if is_empty factory
      then ok []
      else (r.all_pairs_length factory >>= λ count. pair_options_from existing factory 0 count)
