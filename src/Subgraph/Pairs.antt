-- ===== src/Subgraph/Pairs.antt =====
-- subgraph/src/flux-swap-pair.ts: the events of a pair update its entity and are kept in a log.
use flux_swap_dex.Common.{ℕ, String, ◌+◌, Option, none, some, str_eq, if◌then◌else◌}
use flux_swap_dex.Common.Int.{ℤ, pos, ◌+ℤ◌, ◌-ℤ◌}
use flux_swap_dex.Subgraph.Entities.{
  Bytes, GraphTs, Tables, Pair, Origin, Mint, Burn, Swap, Sync, Transfer, Logged,
}
use flux_swap_dex.Subgraph.Factory.{Store}

abbrev pub zero_address : String
zero_address = "0x0000000000000000000000000000000000000000"

-- The entity of an event of the pair `pair`.
unfoldable pub log_entry : {P : Type 0} → Bytes → P → Origin → Logged P
log_entry pair params origin = record {
  pair = pair;
  params = params;
  timestamp = origin.timestamp;
  block_number = origin.block_number;
  tx_hash = origin.tx_hash;
  log_index = origin.log_index;
}

module _ (g : GraphTs) where
  pub build_event_id : Bytes → ℕ → Bytes
  build_event_id tx_hash log_index = g.concat tx_hash (g.from_big_int log_index)

  abbrev pub event_id : Origin → Bytes
  event_id origin = build_event_id origin.tx_hash origin.log_index

  -- A transfer from the zero address mints pool shares, one to it burns them.
  unfoldable pub supply_after : Transfer → ℤ → ℤ
  unfolding ◌+ℤ◌ ◌-ℤ◌
  supply_after event supply =
      if str_eq (g.to_hex_string event.from) zero_address
      then supply +ℤ pos event.value
      else if str_eq (g.to_hex_string event.to) zero_address
      then supply -ℤ pos event.value
      else supply

module _ (g : GraphTs) (db : Tables) where
  abbrev pub save_pair : Pair → Store g db → Store g db
  save_pair p s = record s { pairs = db.save Pair p.id p s.pairs }

  -- `Pair.load(event.address)`; a handler returns at once where the pair is not known.
  abbrev pub load_pair : Bytes → Store g db → Option Pair
  load_pair address s = db.load Pair address s.pairs

  abbrev pub with_pair : Option Pair → (Pair → Store g db → Store g db) → Store g db → Store g db
  with_pair none update s = s
  with_pair (some p) update s = update p s

  unfoldable pub handle_mint : Mint → Origin → Store g db → Store g db
  unfolding log_entry build_event_id
  handle_mint event origin s =
      with_pair (load_pair origin.address s)
        (λ p s.
          save_pair (record p { mint_count = p.mint_count + 1; tx_count = p.tx_count + 1 })
            (record s {
              mints =
                  db.save (Logged Mint) (event_id g origin) (log_entry p.id event origin) s.mints;
            }))
        s

  unfoldable pub handle_burn : Burn → Origin → Store g db → Store g db
  unfolding log_entry build_event_id
  handle_burn event origin s =
      with_pair (load_pair origin.address s)
        (λ p s.
          save_pair (record p { burn_count = p.burn_count + 1; tx_count = p.tx_count + 1 })
            (record s {
              burns =
                  db.save (Logged Burn) (event_id g origin) (log_entry p.id event origin) s.burns;
            }))
        s

  unfoldable pub handle_swap : Swap → Origin → Store g db → Store g db
  unfolding log_entry build_event_id
  handle_swap event origin s =
      with_pair (load_pair origin.address s)
        (λ p s.
          save_pair (record p { swap_count = p.swap_count + 1; tx_count = p.tx_count + 1 })
            (record s {
              swaps =
                  db.save (Logged Swap) (event_id g origin) (log_entry p.id event origin) s.swaps;
            }))
        s

  unfoldable pub handle_sync : Sync → Origin → Store g db → Store g db
  unfolding log_entry build_event_id
  handle_sync event origin s =
      with_pair (load_pair origin.address s)
        (λ p s.
          save_pair (record p { reserve0 = event.reserve0; reserve1 = event.reserve1 })
            (record s {
              syncs =
                  db.save (Logged Sync) (event_id g origin) (log_entry p.id event origin) s.syncs;
            }))
        s

  unfoldable pub handle_transfer : Transfer → Origin → Store g db → Store g db
  unfolding supply_after
  handle_transfer event origin s =
      with_pair (load_pair origin.address s)
        (λ p s. save_pair (record p { total_supply = supply_after g event p.total_supply }) s) s
