-- ===== src/Subgraph/Factory.antt =====
-- subgraph/src/flux-swap-factory.ts: tokens and pairs are recorded when the factory creates a pair.
use flux_swap_dex.Common.{ℕ, String, List, [], ◌∷◌, ◌++◌, Option, none, some, str_eq, if◌then◌else◌}
use flux_swap_dex.Common.Int.{pos}
use flux_swap_dex.Common.Text.{to_lower_case}
use flux_swap_dex.Subgraph.Entities.{
  Bytes, GraphTs, Tables, Token, Pair, Origin, Mint, Burn, Swap, Sync, Logged,
}

pub record TokenMetadata : Type 0 where
  pub symbol : String
  pub name : String
  pub decimals : ℕ

pub record PairCreated : Type 0 where
  pub token0 : Bytes
  pub token1 : Bytes
  pub pair : Bytes

known : String → String → ℕ → Option TokenMetadata
known symbol name decimals = some (record { symbol = symbol; name = name; decimals = decimals })

metadata_of : String → Option TokenMetadata
unfolding known
metadata_of normalized =
    if str_eq normalized "0xf881723bef047da1cd494795a797835241d3be29"
    then known "WETH" "Wrapped Ether" 18
    else if str_eq normalized "0x5171c0fec2f9c4413a9aae39f3d3739aa30b1110"
    then known "FLUX" "Flux Token" 18
    else if str_eq normalized "0xf4fc2de27781b6401609732e0aa7f7c354bde388"
    then known "USDT" "Tether USD" 6
    else if str_eq normalized "0xa4049489d8689a55154c35f9809b1382b0972a79"
    then known "USDC" "USD Coin" 6
    else if str_eq normalized "0xc97de7b464a4db1910c16ce7835b918b4440c42c"
    then known "WBTC" "Wrapped Bitcoin" 8
    else none

unfoldable pub new_pair : PairCreated → Origin → Pair
new_pair event origin = record {
  id = event.pair;
  token0 = event.token0;
  token1 = event.token1;
  reserve0 = 0;
  reserve1 = 0;
  total_supply = pos 0;
  tx_count = 0;
  swap_count = 0;
  mint_count = 0;
  burn_count = 0;
  created_at_block = origin.block_number;
  created_at_timestamp = origin.timestamp;
  created_at_tx_hash = origin.tx_hash;
}

module _ (g : GraphTs) (db : Tables) where
  -- Everything that the subgraph keeps; a data source is listed by the text of its address.
  pub record Store : Type 0 where
    pub tokens : db.Table Token
    pub pairs : db.Table Pair
    pub mints : db.Table (Logged Mint)
    pub burns : db.Table (Logged Burn)
    pub swaps : db.Table (Logged Swap)
    pub syncs : db.Table (Logged Sync)
    pub sources : List String

  get_known_token_metadata : Bytes → Option TokenMetadata
  unfolding metadata_of to_lower_case
  get_known_token_metadata address = metadata_of (to_lower_case (g.to_hex_string address))

  new_token : Bytes → Option TokenMetadata → ℕ → Token
  new_token address none timestamp = record {
    symbol = g.to_hex_string address;
    name = g.to_hex_string address;
    decimals = 18;
    created_at_timestamp = timestamp;
  }
  new_token address (some m) timestamp = record {
    symbol = m.symbol;
    name = m.name;
    decimals = m.decimals;
    created_at_timestamp = timestamp;
  }

  create_token_if_missing : Bytes → ℕ → db.Table Token → db.Table Token
  unfolding new_token get_known_token_metadata
  create_token_if_missing address timestamp tokens = elim (db.load Token address tokens) [
    | some _ ↦ tokens
    | none ↦
        db.save Token address (new_token address (get_known_token_metadata address) timestamp)
          tokens
  ]

  unfoldable pub create_pair_if_missing : PairCreated → Origin → db.Table Pair → db.Table Pair
  unfolding new_pair
  create_pair_if_missing event origin pairs = elim (db.load Pair event.pair pairs) [
    | some _ ↦ pairs
    | none ↦ db.save Pair event.pair (new_pair event origin) pairs
  ]

  unfoldable pub handle_pair_created : PairCreated → Origin → Store → Store
  unfolding create_token_if_missing create_pair_if_missing
  handle_pair_created event origin s =
      let first = create_token_if_missing event.token0 origin.timestamp s.tokens in
      record s {
        tokens = create_token_if_missing event.token1 origin.timestamp first;
        pairs = create_pair_if_missing event origin s.pairs;
        sources = s.sources ++ g.to_hex_string event.pair ∷ [];
      }
