-- ===== src/Subgraph/Trace.antt =====
-- A run of the subgraph over the events of a chain, in their order.
use flux_swap_dex.Common.{List, [], ◌∷◌, Option, some, ◌≡◌}
use flux_swap_dex.Subgraph.Entities.{
  Bytes, GraphTs, Tables, Pair, Origin, Mint, Burn, Swap, Sync, Transfer, Logged, Token,
}
use flux_swap_dex.Subgraph.Factory.{Store, PairCreated, handle_pair_created}
use flux_swap_dex.Subgraph.Pairs.{
  handle_mint, handle_burn, handle_swap, handle_sync, handle_transfer,
}

pub data Event : Type 0 where
  created : PairCreated → Origin → Event
  minted : Mint → Origin → Event
  burned : Burn → Origin → Event
  swapped : Swap → Origin → Event
  synced : Sync → Origin → Event
  transferred : Transfer → Origin → Event

module _ (g : GraphTs) (db : Tables) where
  -- The event handlers that subgraph/subgraph.yaml names.
  unfoldable pub handle : Event → Store g db → Store g db
  handle (created e o) s = handle_pair_created g db e o s
  handle (minted e o) s = handle_mint g db e o s
  handle (burned e o) s = handle_burn g db e o s
  handle (swapped e o) s = handle_swap g db e o s
  handle (synced e o) s = handle_sync g db e o s
  handle (transferred e o) s = handle_transfer g db e o s

  unfoldable pub run : List Event → Store g db → Store g db
  run [] s = s
  run (e ∷ es) s = run es (handle e s)

  abbrev pub empty_store : Store g db
  empty_store = record {
    tokens = db.empty Token;
    pairs = db.empty Pair;
    mints = db.empty (Logged Mint);
    burns = db.empty (Logged Burn);
    swaps = db.empty (Logged Swap);
    syncs = db.empty (Logged Sync);
    sources = [];
  }

  -- The entity of a pair, if there is one.
  abbrev pub pair_at : Bytes → Store g db → Option Pair
  pair_at a s = db.load Pair a s.pairs

  -- Each pair stands under its own id.
  abbrev pub IsKeyed : Store g db → Type 0
  IsKeyed s = (a : Bytes) (p : Pair) → pair_at a s ≡ some p → p.id ≡ a
