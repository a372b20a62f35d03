-- ===== src/Pools/Indexed.antt =====
-- subgraph/src/flux-swap-pair.ts and frontend/src/lib/subgraph/pools.ts: the events that the subgraph has
-- logged, as the pages get them. The subgraph's host sends numbers in decimal digits and bytes in
-- the form that `hex` gives.
use flux_swap_dex.Common.{ℕ, String, List, [], ◌∷◌, ◌++◌, some, ◌≡◌, refl, ◌≤◌}
use flux_swap_dex.Common.Int.{pos}
use flux_swap_dex.Common.BigInt.{nat_to_string, to_string, parse_big_int}
use flux_swap_dex.Common.BigInt.RoundTrip.{parse_big_int-to_string}
use flux_swap_dex.Api.Values.{text, Attempt, ok}
use flux_swap_dex.Subgraph.Entities.{Bytes, Logged, Swap, Mint, Burn, Sync}
use flux_swap_dex.Pools.{
  SubgraphSwapEvent, SubgraphMintEvent, SubgraphBurnEvent, SubgraphSyncEvent, PoolDetailQueryResult,
  Change, swap, add, remove, sync, PoolActivityViewModel, map_all, or_empty,
}
use flux_swap_dex.Pools.Reading.{
  Runtime, big_int, map_subgraph_swap_event, map_subgraph_mint_event, map_subgraph_burn_event,
  map_subgraph_sync_event, all_activities,
}

-- Each logged event is sent, in order, and no other is.
abbrev pub AllSent : {L S : Type 0} → (L → S → Type 0) → List L → List S → Type 0
AllSent R [] [] = Unit
AllSent R (l ∷ ls) (s ∷ ss) = R l s × AllSent R ls ss
AllSent R _ _ = ⊥

abbrev pub both : {L S A : Type 0} → (L → S → A) → List L → List S → List A
both f (l ∷ ls) (s ∷ ss) = f l s ∷ both f ls ss
both f _ _ = []

map_all-sent :
    {L S A : Type 0} (R : L → S → Type 0) (act : L → S → A) (f : S → Attempt A)
    → ((l : L) (s : S) → R l s → f s ≡ ok (act l s))
    → (ls : List L) (ss : List S) → AllSent R ls ss
    → map_all f ss ≡ ok (both act ls ss)
map_all-sent R act f each [] [] sent = refl
map_all-sent R act f each (l ∷ ls) (s ∷ ss) (first, sent) =
    rw (each l s first, map_all-sent R act f each ls ss sent) refl
map_all-sent R act f each [] (s ∷ ss) bad = absurd bad
map_all-sent R act f each (l ∷ ls) [] bad = absurd bad

module _ (hex : Bytes → String) where
  -- The place of a logged event, as it is sent.
  pub record IsPlaced {P : Type 0} (l : Logged P) (at block tx log : String) : Type 0 where
    pub is_safe : l.timestamp ≤ 9007199254740991
    pub timestamp : at ≡ nat_to_string l.timestamp
    pub block_number : block ≡ nat_to_string l.block_number
    pub tx_hash : tx ≡ hex l.tx_hash
    pub log_index : log ≡ nat_to_string l.log_index

  pub record IsSwapSent (l : Logged Swap) (s : SubgraphSwapEvent) : Type 0 where
    pub sender : s.sender ≡ hex l.params.sender
    pub to : s.to ≡ hex l.params.to
    pub in0 : s.amount0_in ≡ nat_to_string l.params.amount0_in
    pub in1 : s.amount1_in ≡ nat_to_string l.params.amount1_in
    pub out0 : s.amount0_out ≡ nat_to_string l.params.amount0_out
    pub out1 : s.amount1_out ≡ nat_to_string l.params.amount1_out
    pub place : IsPlaced l s.timestamp s.block_number s.tx_hash s.log_index

  pub record IsMintSent (l : Logged Mint) (s : SubgraphMintEvent) : Type 0 where
    pub sender : s.sender ≡ hex l.params.sender
    pub amount0 : s.amount0 ≡ nat_to_string l.params.amount0
    pub amount1 : s.amount1 ≡ nat_to_string l.params.amount1
    pub place : IsPlaced l s.timestamp s.block_number s.tx_hash s.log_index

  pub record IsBurnSent (l : Logged Burn) (s : SubgraphBurnEvent) : Type 0 where
    pub sender : s.sender ≡ hex l.params.sender
    pub to : s.to ≡ hex l.params.to
    pub amount0 : s.amount0 ≡ nat_to_string l.params.amount0
    pub amount1 : s.amount1 ≡ nat_to_string l.params.amount1
    pub place : IsPlaced l s.timestamp s.block_number s.tx_hash s.log_index

  pub record IsSyncSent (l : Logged Sync) (s : SubgraphSyncEvent) : Type 0 where
    pub reserve0 : s.reserve0 ≡ nat_to_string l.params.reserve0
    pub reserve1 : s.reserve1 ≡ nat_to_string l.params.reserve1
    pub place : IsPlaced l s.timestamp s.block_number s.tx_hash s.log_index

  abbrev placed : {P : Type 0} → String → Change → Logged P → PoolActivityViewModel
  placed id change l = record {
    id = id;
    change = change;
    timestamp = pos l.timestamp;
    block_number = pos l.block_number;
    tx_hash = hex l.tx_hash;
    log_index = pos l.log_index;
  }

  -- What a page is to show for a logged event that is sent under an id.
  abbrev pub swap_activity : Logged Swap → SubgraphSwapEvent → PoolActivityViewModel
  swap_activity l s =
      placed s.id
        (swap (hex l.params.sender) (hex l.params.to) (pos l.params.amount0_in)
          (pos l.params.amount1_in) (pos l.params.amount0_out) (pos l.params.amount1_out))
        l

  abbrev pub mint_activity : Logged Mint → SubgraphMintEvent → PoolActivityViewModel
  mint_activity l s =
      placed s.id (add (hex l.params.sender) (pos l.params.amount0) (pos l.params.amount1)) l

  abbrev pub burn_activity : Logged Burn → SubgraphBurnEvent → PoolActivityViewModel
  burn_activity l s =
      placed s.id
        (remove (hex l.params.sender) (hex l.params.to) (pos l.params.amount0)
          (pos l.params.amount1))
        l

  abbrev pub sync_activity : Logged Sync → SubgraphSyncEvent → PoolActivityViewModel
  sync_activity l s = placed s.id (sync (pos l.params.reserve0) (pos l.params.reserve1)) l

  module _ (e : Runtime)
      (reads : (n : ℕ) → n ≤ 9007199254740991 → e.number_of (text (nat_to_string n)) ≡ pos n) where
    big_int-nat_to_string : (n : ℕ) → big_int e (nat_to_string n) ≡ ok (pos n)
    unfolding big_int
    big_int-nat_to_string n =
        let read : parse_big_int (nat_to_string n) ≡ some (pos n) =
          unfold to_string in parse_big_int-to_string (pos n) in
        rw read refl

    map_swap-sent :
        (l : Logged Swap) (s : SubgraphSwapEvent)
        → IsSwapSent l s
        → map_subgraph_swap_event e s ≡ ok (swap_activity l s)
    unfolding map_subgraph_swap_event
    map_swap-sent l s h =
        rw
          (
            h.in0,
            big_int-nat_to_string l.params.amount0_in,
            h.in1,
            big_int-nat_to_string l.params.amount1_in,
            h.out0,
            big_int-nat_to_string l.params.amount0_out,
            h.out1,
            big_int-nat_to_string l.params.amount1_out,
            h.place.block_number,
            big_int-nat_to_string l.block_number,
            h.place.log_index,
            big_int-nat_to_string l.log_index,
            h.place.timestamp,
            reads l.timestamp h.place.is_safe,
            h.sender,
            h.to,
            h.place.tx_hash,
          )
          refl

    map_mint-sent :
        (l : Logged Mint) (s : SubgraphMintEvent)
        → IsMintSent l s
        → map_subgraph_mint_event e s ≡ ok (mint_activity l s)
    unfolding map_subgraph_mint_event
    map_mint-sent l s h =
        rw
          (
            h.amount0,
            big_int-nat_to_string l.params.amount0,
            h.amount1,
            big_int-nat_to_string l.params.amount1,
            h.place.block_number,
            big_int-nat_to_string l.block_number,
            h.place.log_index,
            big_int-nat_to_string l.log_index,
            h.place.timestamp,
            reads l.timestamp h.place.is_safe,
            h.sender,
            h.place.tx_hash,
          )
          refl

    map_burn-sent :
        (l : Logged Burn) (s : SubgraphBurnEvent)
        → IsBurnSent l s
        → map_subgraph_burn_event e s ≡ ok (burn_activity l s)
    unfolding map_subgraph_burn_event
    map_burn-sent l s h =
        rw
          (
            h.amount0,
            big_int-nat_to_string l.params.amount0,
            h.amount1,
            big_int-nat_to_string l.params.amount1,
            h.place.block_number,
            big_int-nat_to_string l.block_number,
            h.place.log_index,
            big_int-nat_to_string l.log_index,
            h.place.timestamp,
            reads l.timestamp h.place.is_safe,
            h.sender,
            h.to,
            h.place.tx_hash,
          )
          refl

    map_sync-sent :
        (l : Logged Sync) (s : SubgraphSyncEvent)
        → IsSyncSent l s
        → map_subgraph_sync_event e s ≡ ok (sync_activity l s)
    unfolding map_subgraph_sync_event
    map_sync-sent l s h =
        rw
          (
            h.reserve0,
            big_int-nat_to_string l.params.reserve0,
            h.reserve1,
            big_int-nat_to_string l.params.reserve1,
            h.place.block_number,
            big_int-nat_to_string l.block_number,
            h.place.log_index,
            big_int-nat_to_string l.log_index,
            h.place.timestamp,
            reads l.timestamp h.place.is_safe,
            h.place.tx_hash,
          )
          refl

    -- Where the subgraph's host sends the logged events of a pool in decimal digits, with timestamps that are
    -- safe, and `Number` reads the digits of each safe integer, the activities of the pool are the logged
    -- swaps, deposits, withdrawals and syncs with the numbers that the handlers have stored.
    pub all_activities-sent :
        (swaps : List (Logged Swap)) (mints : List (Logged Mint)) (burns : List (Logged Burn))
        → (syncs : List (Logged Sync)) (found : PoolDetailQueryResult)
        → AllSent IsSwapSent swaps (or_empty found.swap_events)
        → AllSent IsMintSent mints (or_empty found.mint_events)
        → AllSent IsBurnSent burns (or_empty found.burn_events)
        → AllSent IsSyncSent syncs (or_empty found.sync_events)
        → all_activities e found
          ≡ ok (
              both swap_activity swaps (or_empty found.swap_events)
              ++ (both mint_activity mints (or_empty found.mint_events)
                  ++ (both burn_activity burns (or_empty found.burn_events)
                      ++ both sync_activity syncs (or_empty found.sync_events))))
    unfolding all_activities
    all_activities-sent swaps mints burns syncs found s m b y =
        rw
          (
            map_all-sent IsSwapSent swap_activity (map_subgraph_swap_event e) map_swap-sent swaps
                (or_empty found.swap_events) s,
            map_all-sent IsMintSent mint_activity (map_subgraph_mint_event e) map_mint-sent mints
                (or_empty found.mint_events) m,
            map_all-sent IsBurnSent burn_activity (map_subgraph_burn_event e) map_burn-sent burns
                (or_empty found.burn_events) b,
            map_all-sent IsSyncSent sync_activity (map_subgraph_sync_event e) map_sync-sent syncs
                (or_empty found.sync_events) y,
          )
          refl
