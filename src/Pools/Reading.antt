-- ===== src/Pools/Reading.antt =====
-- frontend/src/lib/subgraph/pools.ts: what the subgraph sends, as the pages use it.
pub mod Laws
use mathlib.Core.List.{Perm}
use flux_swap_dex.Common.{
  String, Bool, List, [], ◌++◌, Option, none, some, if◌then◌else◌, ◌≡◌, ap, [], ◌∷◌,
}
use flux_swap_dex.Common.Int.{ℤ, pos, ltb_ℤ}
use flux_swap_dex.Common.Sorting.{
  sort, descending, IsConsistent, IsOrdered, sort-perm, sort-IsOrdered, descending-IsConsistent,
}
use flux_swap_dex.Common.BigInt.{parse_big_int}
use flux_swap_dex.Common.Text.{to_lower_case, includes}
use flux_swap_dex.Api.Values.{Value, text, Attempt, ok, failed, ◌>>=◌, >>=-eq-ok, or_throw, or_else}
use flux_swap_dex.Pools.{
  SubgraphSwapEvent, SubgraphMintEvent, SubgraphBurnEvent, SubgraphSyncEvent, SubgraphToken,
  SubgraphPair, PoolDetailQueryResult, swap, add, remove, sync, PoolActivityViewModel, PoolToken,
  PoolRecentSwapViewModel, PoolViewModel, PoolDetailViewModel, PoolDetailResult, map_all, or_empty,
  DetailQuery, pool_detail_query, pool_detail_legacy_query,
}

-- What the module uses of the engine: `Number(value)` where that is a whole number, the message of the
-- SyntaxError that `BigInt(text)` throws, and `left.localeCompare(right)`.
pub record Runtime : Type 0 where
  pub number_of : Value → ℤ
  pub no_big_int : String → String
  pub locale_compare : String → String → ℤ

module _ (e : Runtime) where
  unfoldable pub big_int : String → Attempt ℤ
  unfolding parse_big_int
  big_int s = or_throw (parse_big_int s) (e.no_big_int s)

  unfoldable pub map_subgraph_swap_event : SubgraphSwapEvent → Attempt PoolActivityViewModel
  unfolding big_int
  map_subgraph_swap_event event = do
    in0 ← big_int event.amount0_in
    in1 ← big_int event.amount1_in
    out0 ← big_int event.amount0_out
    out1 ← big_int event.amount1_out
    block_number ← big_int event.block_number
    log_index ← big_int event.log_index
    ok (record {
      id = event.id;
      change = swap event.sender event.to in0 in1 out0 out1;
      timestamp = e.number_of (text event.timestamp);
      block_number = block_number;
      tx_hash = event.tx_hash;
      log_index = log_index;
    })

  unfoldable pub map_subgraph_mint_event : SubgraphMintEvent → Attempt PoolActivityViewModel
  unfolding big_int
  map_subgraph_mint_event event = do
    amount0 ← big_int event.amount0
    amount1 ← big_int event.amount1
    block_number ← big_int event.block_number
    log_index ← big_int event.log_index
    ok (record {
      id = event.id;
      change = add event.sender amount0 amount1;
      timestamp = e.number_of (text event.timestamp);
      block_number = block_number;
      tx_hash = event.tx_hash;
      log_index = log_index;
    })

  unfoldable pub map_subgraph_burn_event : SubgraphBurnEvent → Attempt PoolActivityViewModel
  unfolding big_int
  map_subgraph_burn_event event = do
    amount0 ← big_int event.amount0
    amount1 ← big_int event.amount1
    block_number ← big_int event.block_number
    log_index ← big_int event.log_index
    ok (record {
      id = event.id;
      change = remove event.sender event.to amount0 amount1;
      timestamp = e.number_of (text event.timestamp);
      block_number = block_number;
      tx_hash = event.tx_hash;
      log_index = log_index;
    })

  unfoldable pub map_subgraph_sync_event : SubgraphSyncEvent → Attempt PoolActivityViewModel
  unfolding big_int
  map_subgraph_sync_event event = do
    reserve0 ← big_int event.reserve0
    reserve1 ← big_int event.reserve1
    block_number ← big_int event.block_number
    log_index ← big_int event.log_index
    ok (record {
      id = event.id;
      change = sync reserve0 reserve1;
      timestamp = e.number_of (text event.timestamp);
      block_number = block_number;
      tx_hash = event.tx_hash;
      log_index = log_index;
    })

  unfoldable pub map_token : SubgraphToken → PoolToken
  map_token token = record {
    id = token.id;
    symbol = token.symbol;
    decimals = elim token.decimals [ none ↦ pos 18 | some d ↦ e.number_of d ];
  }

  unfoldable pub map_recent_swap : SubgraphSwapEvent → Attempt PoolRecentSwapViewModel
  unfolding big_int
  map_recent_swap event = do
    in0 ← big_int event.amount0_in
    in1 ← big_int event.amount1_in
    out0 ← big_int event.amount0_out
    out1 ← big_int event.amount1_out
    ok (record {
      amount0_in = in0;
      amount1_in = in1;
      amount0_out = out0;
      amount1_out = out1;
      timestamp = e.number_of (text event.timestamp);
    })

  unfoldable pub map_subgraph_pair : SubgraphPair → Attempt PoolViewModel
  unfolding big_int map_token map_recent_swap
  map_subgraph_pair pair = do
    reserve0 ← big_int pair.reserve0
    reserve1 ← big_int pair.reserve1
    total_supply ← big_int (or_else pair.total_supply "0")
    recent_swaps ← map_all map_recent_swap (or_empty pair.swaps)
    ok (record {
      id = pair.id;
      token0 = map_token pair.token0;
      token1 = map_token pair.token1;
      reserve0 = reserve0;
      reserve1 = reserve1;
      total_supply = total_supply;
      recent_swaps = recent_swaps;
    })

  unfoldable pub map_subgraph_pair_detail : SubgraphPair → Attempt PoolDetailViewModel
  unfolding big_int map_subgraph_pair
  map_subgraph_pair_detail pair = do
    pool ← map_subgraph_pair pair
    total_supply ← big_int (or_else pair.total_supply "0")
    tx_count ← big_int (or_else pair.tx_count "0")
    swap_count ← big_int (or_else pair.swap_count "0")
    mint_count ← big_int (or_else pair.mint_count "0")
    burn_count ← big_int (or_else pair.burn_count "0")
    ok (record {
      pool = pool;
      total_supply = total_supply;
      tx_count = tx_count;
      swap_count = swap_count;
      mint_count = mint_count;
      burn_count = burn_count;
      created_at_timestamp = e.number_of (text (or_else pair.created_at_timestamp "0"));
      created_at_tx_hash = or_else pair.created_at_tx_hash "";
    })

  -- `data.pairs`, mapped.
  unfoldable pub get_pools : Attempt (Option (List SubgraphPair)) → Attempt (List PoolViewModel)
  unfolding map_subgraph_pair
  get_pools asked = do pairs ← asked; map_all map_subgraph_pair (or_empty pairs)

  abbrev first_pair : List SubgraphPair → Option SubgraphPair
  first_pair [] = none
  first_pair (pair ∷ rest) = some pair

  -- `ask` is given the two addresses of the query.
  unfoldable pub get_pool_by_tokens :
      (String → String → Attempt (Option (List SubgraphPair)))
      → String
      → String
      → Attempt (Option PoolViewModel)
  unfolding map_subgraph_pair to_lower_case
  get_pool_by_tokens ask token_a token_b = do
    pairs ← ask (to_lower_case token_a) (to_lower_case token_b)
    elim (first_pair (or_empty pairs)) [
      | none ↦ ok none
      | some pair ↦ (map_subgraph_pair pair >>= λ pool. ok (some pool))
    ]

  -- The comparator of `sortPoolActivities`: the latest first.
  unfoldable pub activity_after : PoolActivityViewModel → PoolActivityViewModel → Bool
  unfolding descending
  activity_after =
      descending (λ a. a.timestamp)
        (descending (λ a. a.block_number)
          (descending (λ a. a.log_index) (λ a b. ltb_ℤ (pos 0) (e.locale_compare a.id b.id))))

  unfoldable pub sort_pool_activities : List PoolActivityViewModel → List PoolActivityViewModel
  unfolding sort activity_after
  sort_pool_activities activities = sort activity_after activities

  -- The first of the two queries, or the second where the first fails for want of `syncEvents`.
  unfoldable pub pool_detail_data :
      (DetailQuery → Attempt PoolDetailQueryResult) → Attempt PoolDetailQueryResult
  unfolding includes
  pool_detail_data fetch = elim (fetch pool_detail_query) [
    | ok found ↦ ok found
    | failed error ↦
        if includes (or_else error.message "") "syncEvents"
        then fetch pool_detail_legacy_query
        else failed error
  ]

  unfoldable pub all_activities : PoolDetailQueryResult → Attempt (List PoolActivityViewModel)
  unfolding map_subgraph_swap_event map_subgraph_mint_event map_subgraph_burn_event
      map_subgraph_sync_event
  all_activities found = do
    swaps ← map_all map_subgraph_swap_event (or_empty found.swap_events)
    mints ← map_all map_subgraph_mint_event (or_empty found.mint_events)
    burns ← map_all map_subgraph_burn_event (or_empty found.burn_events)
    syncs ← map_all map_subgraph_sync_event (or_empty found.sync_events)
    ok (swaps ++ (mints ++ (burns ++ syncs)))

  abbrev pub detail_of : Option SubgraphPair → Attempt (Option PoolDetailViewModel)
  unfolding map_subgraph_pair_detail
  detail_of none = ok none
  detail_of (some pair) = map_subgraph_pair_detail pair >>= λ detail. ok (some detail)

  unfoldable pub get_pool_detail :
      (DetailQuery → Attempt PoolDetailQueryResult) → Attempt PoolDetailResult
  unfolding pool_detail_data all_activities sort_pool_activities detail_of
  get_pool_detail fetch = do
    found ← pool_detail_data fetch
    activities ← all_activities found
    pool ← detail_of found.pair
    ok (record { pool = pool; activities = sort_pool_activities activities })
