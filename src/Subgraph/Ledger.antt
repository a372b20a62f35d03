-- ===== src/Subgraph/Ledger.antt =====
-- What the subgraph promises: the entity of a pair is the summary of the pair's events.
use flux_swap_dex.Common.{
  ◌+◌, ◌-◌, ◌≤◌, ◌∙◌, ◌++◌, List, [], ◌∷◌, some, ◌≡◌, sym, ap, arith, false, eq_iff, Option-cases,
  inl, inr, All,
}
use flux_swap_dex.Common.Int.{pos, int_laws}
use flux_swap_dex.Subgraph.Entities.{Bytes, GraphTs, Tables, Pair, Origin, Sync}
use flux_swap_dex.Subgraph.Factory.{Store, PairCreated, new_pair}
use flux_swap_dex.Subgraph.History.{
  is_mint, is_burn, is_swap, is_sync, is_creation, count_of, total_minted, total_burned,
}
use flux_swap_dex.Subgraph.Steps.{birth, advance, after, pair_at-handle}
use flux_swap_dex.Subgraph.Runs.{advance_all, empty_store-IsKeyed, handle-IsKeyed}
use flux_swap_dex.Subgraph.Counters.{
  count-all, swap_count_step, mint_count_step, burn_count_step, tx_count_step, tx_count-all,
  no_sync-All, advance_all-append, IsBalanced, pair_after_creation,
}
use flux_swap_dex.Subgraph.Supply.{supply-all}
use flux_swap_dex.Subgraph.Trace.{
  Event, created, synced, handle, run, pair_at, IsKeyed, empty_store,
}

synced_lem :
    (g : GraphTs) (a : Bytes) (s : Sync) (at : Origin) (p : Pair)
    → at.address ≡ a
    → ((advance g a (synced s at) p).reserve0 ≡ s.reserve0)
      × ((advance g a (synced s at) p).reserve1 ≡ s.reserve1)
unfolding advance
synced_lem g a s at p h = let same = (eq_iff at.address a).1 h in (rw same, rw same)

birth-IsBalanced : (a : Bytes) (e : Event) (p : Pair) → birth a e ≡ some p → IsBalanced p
unfolding birth new_pair
birth-IsBalanced a (created e o) p h = ground arith
birth-IsBalanced a _ p h = cc

module _ (g : GraphTs) (db : Tables) where
  -- From an empty store, once the factory has created a pair that it had not created before, the pair's
  -- entity exists, and its counters are the numbers of its Swap, Mint and Burn events since its creation,
  -- whatever other events the chain holds.
  pub counters_after_creation :
      (before later : List Event) (e : PairCreated) (o : Origin)
      → All (λ x. is_creation e.pair x ≡ false) before
      → (p : Pair) × (pair_at g db e.pair
            (run g db (before ++ created e o ∷ later) (empty_store g db))
          ≡ some p)
        × (p.swap_count ≡ count_of (is_swap e.pair) later)
        × (p.mint_count ≡ count_of (is_mint e.pair) later)
        × (p.burn_count ≡ count_of (is_burn e.pair) later)
        × (p.tx_count
            ≡ count_of (is_swap e.pair) later
              + count_of (is_mint e.pair) later
              + count_of (is_burn e.pair) later)
  unfolding new_pair
  counters_after_creation before later e o fresh =
      let a = e.pair in
      let p = advance_all g a later (new_pair e o) in
      let swaps =
        count-all g a (is_swap a) (λ q. q.swap_count) (swap_count_step g a) later (new_pair e o) in
      let mints =
        count-all g a (is_mint a) (λ q. q.mint_count) (mint_count_step g a) later (new_pair e o) in
      let burns =
        count-all g a (is_burn a) (λ q. q.burn_count) (burn_count_step g a) later (new_pair e o) in
      let total = tx_count-all g a later (new_pair e o) (omega arith) in
      (
        p,
        pair_after_creation g db before later e o fresh,
        omega arith,
        omega arith,
        omega arith,
        omega arith,
      )

  -- The reserves of a created pair are those of its latest Sync event.
  pub reserves_of_latest_sync :
      (before middle later : List Event) (e : PairCreated) (o at : Origin) (s : Sync)
      → All (λ x. is_creation e.pair x ≡ false) before
      → at.address ≡ e.pair
      → All (λ x. is_sync e.pair x ≡ false) later
      → (p : Pair) × (pair_at g db e.pair
            (run g db (before ++ created e o ∷ (middle ++ synced s at ∷ later)) (empty_store g db))
          ≡ some p)
        × (p.reserve0 ≡ s.reserve0)
        × (p.reserve1 ≡ s.reserve1)
  unfolding advance_all
  reserves_of_latest_sync before middle later e o at s fresh here quiet =
      let a = e.pair in
      let old = advance_all g a middle (new_pair e o) in
      let p = advance_all g a later (advance g a (synced s at) old) in
      let (zero_kept, one_kept) = no_sync-All g a later (advance g a (synced s at) old) quiet in
      let (zero_set, one_set) = synced_lem g a s at old here in
      (
        p,
        pair_after_creation g db before (middle ++ synced s at ∷ later) e o fresh
            ∙ ap some (advance_all-append g a middle (synced s at ∷ later) (new_pair e o)),
        zero_kept ∙ zero_set,
        one_kept ∙ one_set,
      )

  -- The total supply of a created pair is what its share transfers have minted since, less what they
  -- have burned; as long as no more is burned than minted it is their difference on the naturals.
  pub supply_after_creation :
      (before later : List Event) (e : PairCreated) (o : Origin)
      → All (λ x. is_creation e.pair x ≡ false) before
      → total_burned g e.pair later ≤ total_minted g e.pair later
      → (p : Pair) × (pair_at g db e.pair
            (run g db (before ++ created e o ∷ later) (empty_store g db))
          ≡ some p)
        × (p.total_supply ≡ pos (total_minted g e.pair later - total_burned g e.pair later))
  unfolding new_pair
  supply_after_creation before later e o fresh covered =
      let p = advance_all g e.pair later (new_pair e o) in
      let total = supply-all g e.pair later (new_pair e o) in
      (p, pair_after_creation g db before later e o fresh, total ∙ omega int_laws)

  abbrev pub AllBalanced : Store g db → Type 0
  AllBalanced s = (a : Bytes) (p : Pair) → pair_at g db a s ≡ some p → IsBalanced p

  handle-AllBalanced :
      (e : Event) (s : Store g db) → IsKeyed g db s → AllBalanced s → AllBalanced (handle g db e s)
  unfolding after
  handle-AllBalanced e s keyed balanced a p h = elim (Option-cases (pair_at g db a s)) [
    | inl absent ↦
        birth-IsBalanced a e p
          (ap (after g db a e) (sym absent) ∙ sym (pair_at-handle g db a e s keyed) ∙ h)
    | inr (q, found) ↦
        let now : advance g a e q ≡ p =
          cc (ap (after g db a e) (sym found), pair_at-handle g db a e s keyed, h) in
        rw (← now) (tx_count_step g a e q (balanced a q found))
  ]

  run-AllBalanced :
      (es : List Event) (s : Store g db)
      → IsKeyed g db s
      → AllBalanced s
      → AllBalanced (run g db es s)
  unfolding run
  run-AllBalanced [] s keyed balanced = balanced
  run-AllBalanced (e ∷ es) s keyed balanced =
      run-AllBalanced es (handle g db e s) (handle-IsKeyed g db e s keyed)
        (handle-AllBalanced e s keyed balanced)

  -- Whatever events the chain holds and in whatever order, every pair that the subgraph keeps has as
  -- many transactions as swaps, mints and burns together.
  pub tx_count_balanced :
      (es : List Event) (a : Bytes) (p : Pair)
      → pair_at g db a (run g db es (empty_store g db)) ≡ some p
      → p.tx_count ≡ p.swap_count + p.mint_count + p.burn_count
  tx_count_balanced es =
      run-AllBalanced es (empty_store g db) (empty_store-IsKeyed g db)
        (λ a p h. cc (db.load-empty Pair a, h))
