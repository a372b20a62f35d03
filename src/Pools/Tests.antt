-- ===== src/Pools/Tests.antt =====
-- A pool with a deposit and a swap, of which the reserves are counted back.
use mathlib.Core.List.{Perm}
use flux_swap_dex.Common.{
  ℕ, Option, ◌≤◌, arith, String, List, [], ◌∷◌, none, some, ◌≡◌, refl, ◌≢◌, select,
}
use flux_swap_dex.Common.Int.{ℤ, pos, ltb_ℤ, ◌+ℤ◌, ◌-ℤ◌}
use flux_swap_dex.Common.Sorting.{IsConsistent}
use flux_swap_dex.Api.Values.{Value, text, Attempt, ok, throw}
use flux_swap_dex.Subgraph.Entities.{Logged, Swap}
use flux_swap_dex.Common.BigInt.{parse_big_int, nat_to_string, to_string}
use flux_swap_dex.Common.BigInt.RoundTrip.{parse_big_int-to_string}
use flux_swap_dex.Pools.{
  SubgraphMintEvent, SubgraphSwapEvent, PoolDetailQueryResult, swap, add, sync,
  PoolActivityViewModel, PoolToken, PoolDetailViewModel, PoolDetailResult, DetailQuery,
  pool_detail_query, pool_detail_legacy_query,
}
use flux_swap_dex.Pools.Reading.{Runtime, all_activities, pool_detail_data, get_pool_detail}
use flux_swap_dex.Pools.Reading.Laws.{IsLatestFirst, get_pool_detail-Perm}
use flux_swap_dex.Pools.Indexed.{IsSwapSent, all_activities-sent}
use flux_swap_dex.Pools.Reserves.{ReserveSnapshot, is_sync_activity, build_reserve_snapshots}

abbrev same_place : String → String → ℤ
same_place a b = pos 0

abbrev pool_token : String → PoolToken
pool_token symbol = record { id = symbol; symbol = symbol; decimals = pos 18 }

abbrev the_pool : PoolDetailViewModel
the_pool = record {
  pool = record {
    id = "0xp";
    token0 = pool_token "A";
    token1 = pool_token "B";
    reserve0 = pos 15;
    reserve1 = pos 16;
    total_supply = pos 10;
    recent_swaps = [];
  };
  total_supply = pos 10;
  tx_count = pos 2;
  swap_count = pos 1;
  mint_count = pos 1;
  burn_count = pos 0;
  created_at_timestamp = pos 100;
  created_at_tx_hash = "0x0";
}

abbrev deposit : PoolActivityViewModel
deposit = record {
  id = "0x1-0";
  change = add "0xs" (pos 10) (pos 20);
  timestamp = pos 110;
  block_number = pos 1;
  tx_hash = "0x1";
  log_index = pos 0;
}

abbrev exchange : PoolActivityViewModel
exchange = record {
  id = "0x2-0";
  change = swap "0xs" "0xr" (pos 5) (pos 0) (pos 0) (pos 4);
  timestamp = pos 120;
  block_number = pos 2;
  tx_hash = "0x2";
  log_index = pos 3;
}

abbrev told : PoolActivityViewModel
told = record exchange { id = "0x2-1"; change = sync (pos 15) (pos 16); log_index = pos 4 }

abbrev at : ℤ → ℤ → ℤ → ℤ → ℤ → ReserveSnapshot
at timestamp block_number log_index reserve0 reserve1 = record {
  timestamp = timestamp;
  block_number = block_number;
  log_index = log_index;
  reserve0 = reserve0;
  reserve1 = reserve1;
}

snapshots :
    build_reserve_snapshots same_place the_pool (exchange ∷ deposit ∷ [])
    ≡ at (pos 100) (pos 0) (pos 0) (pos 0) (pos 0)
      ∷ at (pos 110) (pos 1) (pos 0) (pos 10) (pos 20)
      ∷ at (pos 120) (pos 2) (pos 3) (pos 15) (pos 16)
      ∷ []
unfolding build_reserve_snapshots ◌-ℤ◌ ◌+ℤ◌
snapshots = refl

one_sync : select is_sync_activity (told ∷ exchange ∷ []) ≢ []
unfolding is_sync_activity
one_sync h = cc

abbrev runtime : Runtime
runtime = record {
  number_of = λ v. pos 120;
  no_big_int = λ s. "Cannot convert";
  locale_compare = same_place;
}

same_place-IsConsistent :
    IsConsistent (λ (a b : String). ltb_ℤ (pos 0) (runtime.locale_compare a b))
same_place-IsConsistent = ((λ a b h. refl), (λ a b c h k. refl))

abbrev mint_sent : SubgraphMintEvent
mint_sent = record {
  id = "0x1-0";
  sender = "0xs";
  amount0 = "10";
  amount1 = "20";
  timestamp = "120";
  block_number = "1";
  tx_hash = "0x1";
  log_index = "0";
}

abbrev swap_sent : SubgraphSwapEvent
swap_sent = record {
  id = "0x2-0";
  sender = "0xs";
  to = "0xr";
  amount0_in = "5";
  amount1_in = "0";
  amount0_out = "0";
  amount1_out = "4";
  timestamp = "120";
  block_number = "2";
  tx_hash = "0x2";
  log_index = "3";
}

-- A subgraph that does not know `syncEvents` yet.
abbrev old_subgraph : DetailQuery → Attempt PoolDetailQueryResult
old_subgraph pool_detail_query = throw "Type `Query` has no field `syncEvents`"
old_subgraph pool_detail_legacy_query = ok (record {
  pair = none;
  swap_events = some (swap_sent ∷ []);
  mint_events = some (mint_sent ∷ []);
  burn_events = none;
  sync_events = none;
})

abbrev old_result : PoolDetailResult
old_result = record {
  pool = none;
  activities = exchange ∷ record deposit { timestamp = pos 120 } ∷ [];
}

old_read : get_pool_detail runtime old_subgraph ≡ ok old_result
unfolding get_pool_detail
old_read = refl

get_pool_detail-Perm_example :
    (found : PoolDetailQueryResult) × (all : List PoolActivityViewModel) × (pool_detail_data runtime
        old_subgraph
      ≡ ok found)
    × (all_activities runtime found ≡ ok all)
    × Perm old_result.activities all
    × IsLatestFirst runtime old_result.activities
get_pool_detail-Perm_example =
    get_pool_detail-Perm runtime old_subgraph old_result same_place-IsConsistent old_read

abbrev number_read : Option ℤ → ℤ
number_read none = pos 0
number_read (some z) = z

abbrev digits_of : Value → ℤ
digits_of (text s) = number_read (parse_big_int s)
digits_of v = pos 0

abbrev reader : Runtime
reader = record runtime { number_of = digits_of }

digits_read : (n : ℕ) → n ≤ 9007199254740991 → digits_of (text (nat_to_string n)) ≡ pos n
unfolding to_string
digits_read n small =
    let same : parse_big_int (nat_to_string n) ≡ some (pos n) = parse_big_int-to_string (pos n) in
    rw same refl

abbrev logged_swap : Logged Swap
logged_swap = record {
  pair = "0xp";
  params = record {
    sender = "0xs";
    amount0_in = 5;
    amount1_in = 0;
    amount0_out = 0;
    amount1_out = 4;
    to = "0xr";
  };
  timestamp = 120;
  block_number = 2;
  tx_hash = "0x2";
  log_index = 3;
}

abbrev found_swap : PoolDetailQueryResult
found_swap = record {
  pair = none;
  swap_events = some (swap_sent ∷ []);
  mint_events = none;
  burn_events = none;
  sync_events = some [];
}

swap_is_sent : IsSwapSent (λ b. b) logged_swap swap_sent
unfolding nat_to_string
swap_is_sent = record {
  sender = refl;
  to = refl;
  in0 = refl;
  in1 = refl;
  out0 = refl;
  out1 = refl;
  place = record {
    is_safe = omega arith;
    timestamp = refl;
    block_number = refl;
    tx_hash = refl;
    log_index = refl;
  };
}

all_activities-sent_example : all_activities reader found_swap ≡ ok (exchange ∷ [])
all_activities-sent_example =
    all_activities-sent (λ b. b) reader digits_read (logged_swap ∷ []) [] [] [] found_swap
      (swap_is_sent, tt) tt tt tt
