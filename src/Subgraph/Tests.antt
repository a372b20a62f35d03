-- ===== src/Subgraph/Tests.antt =====
-- The subgraph on a short chain: a pair is created, funded, swapped in and partly burned.
use flux_swap_dex.Common.{
  ◌≢◌, eq_iff, false, true, ℕ, ◌+◌, ◌++◌, List, [], ◌∷◌, Option, none, some, ◌≡◌, refl, arith,
  str_eq, if◌then◌else◌,
}
use flux_swap_dex.Common.Int.{pos}
use flux_swap_dex.Subgraph.Entities.{Bytes, GraphTs, Tables, Pair, Origin, Swap}
use flux_swap_dex.Subgraph.Factory.{PairCreated, handle_pair_created}
use flux_swap_dex.Subgraph.Ledger.{
  counters_after_creation, reserves_of_latest_sync, supply_after_creation, tx_count_balanced,
}
use flux_swap_dex.Subgraph.Outsiders.{without, outsider_ignored}
use flux_swap_dex.Subgraph.Pairs.{
  event_id, handle_mint, handle_burn, handle_swap, handle_sync, handle_transfer, zero_address,
}
use flux_swap_dex.Subgraph.Runs.{handle-IsKeyed, empty_store-IsKeyed}
use flux_swap_dex.Subgraph.SwapLog.{swap_at, swap_kept}
use flux_swap_dex.Subgraph.Trace.{
  Event, created, minted, swapped, synced, transferred, handle, run, pair_at, empty_store,
}

abbrev host : GraphTs
host = record { to_hex_string = λ b. b; concat = λ a b. b; from_big_int = λ n. "0x01" }

abbrev tables : Tables
tables = record {
  Table = λ V. Bytes → Option V;
  empty = λ V id. none;
  load = λ V id t. t id;
  save = λ V id v t other. if str_eq id other then some v else t other;
  load-empty = λ V id. refl;
  load-save = λ V id other v t. refl;
}

abbrev at : ℕ → Origin
at n = record { address = "0xp"; timestamp = n; block_number = n; tx_hash = "0xt"; log_index = n }

abbrev creation : PairCreated
creation = record { token0 = "0xa"; token1 = "0xb"; pair = "0xp" }

abbrev sync_to : ℕ → ℕ → Event
sync_to a b = synced (record { reserve0 = a; reserve1 = b }) (at 4)

abbrev a_swap : Swap
a_swap = record {
  sender = "0xu";
  amount0_in = 10;
  amount1_in = 0;
  amount0_out = 0;
  amount1_out = 9;
  to = "0xu";
}

abbrev shares : Bytes → Bytes → ℕ → Event
shares from to value = transferred (record { from = from; to = to; value = value }) (at 3)

abbrev later : List Event
later =
    shares zero_address "0xu" 100
    ∷ minted (record { sender = "0xu"; amount0 = 50; amount1 = 50 }) (at 5)
    ∷ swapped a_swap (at 6)
    ∷ shares "0xu" zero_address 40
    ∷ []

system : Unit {0}
unfolding run handle handle_pair_created handle_mint handle_burn handle_swap handle_sync
    handle_transfer
system = tt

abbrev after_creation : Pair
after_creation = record {
  id = "0xp";
  token0 = "0xa";
  token1 = "0xb";
  reserve0 = 0;
  reserve1 = 0;
  total_supply = pos 0;
  tx_count = 0;
  swap_count = 0;
  mint_count = 0;
  burn_count = 0;
  created_at_block = 1;
  created_at_timestamp = 1;
  created_at_tx_hash = "0xt";
}

run_test :
    pair_at host tables "0xp"
      (run host tables (created creation (at 1) ∷ later) (empty_store host tables))
    ≡ some (record after_creation {
      total_supply = pos 60;
      tx_count = 2;
      swap_count = 1;
      mint_count = 1;
    })
unfolding system
run_test = refl

counters_after_creation_example :
    (p : Pair) × (pair_at host tables "0xp" (
        run host tables
          (sync_to 7 7 ∷ [] ++ created creation (at 1) ∷ later)
          (empty_store host tables))
      ≡ some p)
    × (p.swap_count ≡ 1)
    × (p.mint_count ≡ 1)
    × (p.burn_count ≡ 0)
    × (p.tx_count ≡ 2)
counters_after_creation_example =
    counters_after_creation host tables (sync_to 7 7 ∷ []) later creation (at 1) (refl, tt)

reserves_of_latest_sync_example :
    (p : Pair) × (pair_at host tables "0xp" (
        run host tables
          ([] ++ created creation (at 1) ∷ (sync_to 3 4 ∷ [] ++ sync_to 50 60 ∷ later))
          (empty_store host tables))
      ≡ some p)
    × (p.reserve0 ≡ 50)
    × (p.reserve1 ≡ 60)
reserves_of_latest_sync_example =
    reserves_of_latest_sync host tables [] (sync_to 3 4 ∷ []) later creation (at 1) (at 4)
      (record { reserve0 = 50; reserve1 = 60 }) tt refl (refl, (refl, (refl, (refl, tt))))

supply_after_creation_example :
    (p : Pair) × (pair_at host tables "0xp"
        (run host tables ([] ++ created creation (at 1) ∷ later) (empty_store host tables))
      ≡ some p)
    × (p.total_supply ≡ pos 60)
supply_after_creation_example =
    supply_after_creation host tables [] later creation (at 1) tt (omega arith)

tx_count_balanced_example : 2 ≡ 1 + 1 + 0
tx_count_balanced_example =
    tx_count_balanced host tables (created creation (at 1) ∷ later) "0xp" _ run_test

abbrev stranger : Origin
stranger = record (at 7) { address = "0xq" }

other_pair : ◌≢◌ {A = Bytes} "0xp" "0xq"
other_pair h = let unlike : false ≡ true = (eq_iff "0xp" "0xq").1 h in cc

abbrev strange : List Event
strange = created creation (at 1) ∷ swapped a_swap stranger ∷ sync_to 1 2 ∷ []

outsider_ignored_example :
    run host tables strange (empty_store host tables)
    ≡ run host tables (without "0xq" strange) (empty_store host tables)
outsider_ignored_example = outsider_ignored host tables "0xq" strange (other_pair, (tt, (tt, tt)))

one_pair :
    pair_at host tables "0xp"
      (handle host tables (created creation (at 1)) (empty_store host tables))
    ≡ some after_creation
unfolding system
one_pair = refl

swap_kept_example :
    swap_at host tables (event_id host (at 6)) (
      run host tables
        (swapped a_swap (at 6) ∷ sync_to 1 2 ∷ [])
        (handle host tables (created creation (at 1)) (empty_store host tables)))
    ≡ some (record {
      pair = "0xp";
      params = a_swap;
      timestamp = (at 6).timestamp;
      block_number = (at 6).block_number;
      tx_hash = (at 6).tx_hash;
      log_index = (at 6).log_index;
    })
swap_kept_example =
    swap_kept host tables a_swap (at 6) (sync_to 1 2 ∷ [])
      (handle host tables (created creation (at 1)) (empty_store host tables)) after_creation
      (handle-IsKeyed host tables (created creation (at 1)) (empty_store host tables)
        (empty_store-IsKeyed host tables))
      one_pair (tt, tt)
