-- ===== src/Subgraph/SwapLog.antt =====
-- The log of swaps: each Swap event of a known pair is kept under its id.
use flux_swap_dex.Common.{
  List, [], ◌∷◌, Option, none, some, ◌≡◌, ◌≢◌, ◌∙◌, refl, str_eq, eq_iff, eq_refl, Bool-cases, inl,
  inr, All,
}
use flux_swap_dex.Subgraph.Entities.{Bytes, GraphTs, Tables, Pair, Origin, Swap, Logged}
use flux_swap_dex.Subgraph.Factory.{Store, handle_pair_created}
use flux_swap_dex.Subgraph.Pairs.{
  event_id, log_entry, with_pair, handle_mint, handle_burn, handle_swap, handle_sync,
  handle_transfer,
}
use flux_swap_dex.Subgraph.Trace.{
  Event, created, minted, burned, swapped, synced, transferred, handle, run, pair_at, IsKeyed,
}

-- An event that does not write the log of swaps under the id.
abbrev pub IsOther : GraphTs → Bytes → Event → Type 0
IsOther g id (swapped e o) = event_id g o ≢ id
IsOther g id (created e o) = Unit
IsOther g id (minted e o) = Unit
IsOther g id (burned e o) = Unit
IsOther g id (synced e o) = Unit
IsOther g id (transferred e o) = Unit

-- What the log says of a Swap event: the pair that sent it, its parameters, and its place in the chain.
abbrev pub swap_log : Swap → Origin → Logged Swap
swap_log e o = record {
  pair = o.address;
  params = e;
  timestamp = o.timestamp;
  block_number = o.block_number;
  tx_hash = o.tx_hash;
  log_index = o.log_index;
}

module _ (g : GraphTs) (db : Tables) where
  abbrev pub swap_at : Bytes → Store g db → Option (Logged Swap)
  swap_at id s = db.load (Logged Swap) id s.swaps

  with_pair-swaps :
      (id : Bytes) (o : Option Pair) (f : Pair → Store g db → Store g db) (s : Store g db)
      → ((p : Pair) → swap_at id (f p s) ≡ swap_at id s)
      → swap_at id (with_pair g db o f s) ≡ swap_at id s
  with_pair-swaps id none f s h = refl
  with_pair-swaps id (some p) f s h = h p

  handle-keeps :
      (id : Bytes) (e : Event) (s : Store g db)
      → IsOther g id e
      → swap_at id (handle g db e s) ≡ swap_at id s
  unfolding handle handle_pair_created handle_mint handle_burn handle_swap handle_sync
      handle_transfer
  handle-keeps id (swapped e o) s h = with_pair-swaps id (pair_at g db o.address s) _ s λ p.
      elim (Bool-cases (str_eq (event_id g o) id)) [
        | inl same ↦ absurd (h ((eq_iff _ _).0 same))
        | inr other ↦ db.load-save (Logged Swap) (event_id g o) id _ s.swaps ∙ rw other
      ]
  handle-keeps id (created e o) s h = refl
  handle-keeps id (minted e o) s h = with_pair-swaps id (pair_at g db o.address s) _ s (λ p. refl)
  handle-keeps id (burned e o) s h = with_pair-swaps id (pair_at g db o.address s) _ s (λ p. refl)
  handle-keeps id (synced e o) s h = with_pair-swaps id (pair_at g db o.address s) _ s (λ p. refl)
  handle-keeps id (transferred e o) s h =
      with_pair-swaps id (pair_at g db o.address s) _ s (λ p. refl)

  run-keeps :
      (id : Bytes) (es : List Event) (s : Store g db)
      → All (IsOther g id) es
      → swap_at id (run g db es s) ≡ swap_at id s
  unfolding run
  run-keeps id [] s h = refl
  run-keeps id (e ∷ es) s (h, hs) = run-keeps id es (handle g db e s) hs ∙ handle-keeps id e s h

  swap_logged :
      (e : Swap) (o : Origin) (s : Store g db) (p : Pair)
      → pair_at g db o.address s ≡ some p
      → p.id ≡ o.address
      → swap_at (event_id g o) (handle g db (swapped e o) s) ≡ some (swap_log e o)
  unfolding handle handle_swap log_entry
  swap_logged e o s p h same = rw (
    h,
    db.load-save (Logged Swap) (event_id g o) (event_id g o) _ s.swaps,
    eq_refl (event_id g o),
    same,
  )

  -- A Swap event of a known pair is in the log, under the address that sent it, with its parameters, its
  -- timestamp, its block, the hash of its transaction and its index in the block's log, after
  -- any further events, as long as no later Swap event has its id.
  pub swap_kept :
      (e : Swap) (o : Origin) (later : List Event) (s : Store g db) (p : Pair)
      → IsKeyed g db s
      → pair_at g db o.address s ≡ some p
      → All (IsOther g (event_id g o)) later
      → swap_at (event_id g o) (run g db (swapped e o ∷ later) s) ≡ some (swap_log e o)
  unfolding run
  swap_kept e o later s p keyed h fresh =
      run-keeps (event_id g o) later (handle g db (swapped e o) s) fresh
      ∙ swap_logged e o s p h (keyed o.address p h)
