-- ===== src/Subgraph/Counters.antt =====
-- What a pair's entity says of the chain: its counters and its reserves.
use flux_swap_dex.Common.{
  ℕ, ◌+◌, ◌∙◌, ◌++◌, Bool, List, [], ◌∷◌, none, some, ◌≡◌, refl, ap, arith, eq_refl, false, All,
}
use flux_swap_dex.Subgraph.Entities.{Bytes, GraphTs, Tables, Pair, Origin}
use flux_swap_dex.Subgraph.Factory.{Store, PairCreated, new_pair}
use flux_swap_dex.Subgraph.History.{is_mint, is_burn, is_swap, is_sync, is_creation, count_of}
use flux_swap_dex.Subgraph.Steps.{birth, advance, after, pair_at-handle}
use flux_swap_dex.Subgraph.Runs.{
  advance_all, pair_at-run, run-IsKeyed, run-append, empty_store-IsKeyed, handle-IsKeyed,
}
use flux_swap_dex.Subgraph.Trace.{
  Event, created, minted, synced, handle, run, pair_at, IsKeyed, empty_store,
}

-- A pair's transactions are its swaps, mints and burns.
abbrev pub IsBalanced : Pair → Type 0
IsBalanced p = p.tx_count ≡ p.swap_count + p.mint_count + p.burn_count

module _ (g : GraphTs) (a : Bytes) where
  -- A field that each event raises by its share of a count is raised by the whole count.
  pub count-all :
      (test : Event → Bool) (field : Pair → ℕ)
      → ((e : Event) (p : Pair) → field (advance g a e p) ≡ field p + count_of test (e ∷ []))
      → (es : List Event) (p : Pair) → field (advance_all g a es p) ≡ field p + count_of test es
  unfolding advance_all
  count-all test field step [] p = omega arith
  count-all test field step (e ∷ es) p =
      ground (arith, count-all test field step es (advance g a e p), step e p)

  pub swap_count_step :
      (e : Event) (p : Pair)
      → (advance g a e p).swap_count ≡ p.swap_count + count_of (is_swap a) (e ∷ [])
  unfolding advance
  swap_count_step (created e o) p = ground arith
  swap_count_step _ p = ground arith

  pub mint_count_step :
      (e : Event) (p : Pair)
      → (advance g a e p).mint_count ≡ p.mint_count + count_of (is_mint a) (e ∷ [])
  unfolding advance
  mint_count_step (created e o) p = ground arith
  mint_count_step _ p = ground arith

  pub burn_count_step :
      (e : Event) (p : Pair)
      → (advance g a e p).burn_count ≡ p.burn_count + count_of (is_burn a) (e ∷ [])
  unfolding advance
  burn_count_step (created e o) p = ground arith
  burn_count_step _ p = ground arith

  pub tx_count_step : (e : Event) (p : Pair) → IsBalanced p → IsBalanced (advance g a e p)
  unfolding advance
  tx_count_step (created e o) p h = ground arith
  tx_count_step _ p h = ground arith

  pub tx_count-all : (es : List Event) (p : Pair) → IsBalanced p → IsBalanced (advance_all g a es p)
  unfolding advance_all
  tx_count-all [] p h = h
  tx_count-all (e ∷ es) p h = tx_count-all es (advance g a e p) (tx_count_step e p h)

  -- Without a Sync event the reserves stay as they are.
  no_sync_step :
      (e : Event) (p : Pair)
      → is_sync a e ≡ false
      → ((advance g a e p).reserve0 ≡ p.reserve0) × ((advance g a e p).reserve1 ≡ p.reserve1)
  unfolding advance
  no_sync_step (created e o) p h = (refl, refl)
  no_sync_step (synced e o) p h = (rw h, rw h)
  no_sync_step _ p h = (ground arith, ground arith)

  pub no_sync-All :
      (es : List Event) (p : Pair)
      → All (λ e. is_sync a e ≡ false) es
      → ((advance_all g a es p).reserve0 ≡ p.reserve0)
        × ((advance_all g a es p).reserve1 ≡ p.reserve1)
  unfolding advance_all
  no_sync-All [] p h = (refl, refl)
  no_sync-All (e ∷ es) p (h, hs) =
      let (zero_same, one_same) = no_sync-All es (advance g a e p) hs in
      let (zero_step, one_step) = no_sync_step e p h in (zero_same ∙ zero_step, one_same ∙ one_step)

  pub advance_all-append :
      (es more : List Event) (p : Pair)
      → advance_all g a (es ++ more) p ≡ advance_all g a more (advance_all g a es p)
  unfolding advance_all
  advance_all-append [] more p = refl
  advance_all-append (e ∷ es) more p = advance_all-append es more (advance g a e p)

module _ (g : GraphTs) (db : Tables) where
  birth_step : (a : Bytes) (e : Event) → is_creation a e ≡ false → birth a e ≡ none
  unfolding birth
  birth_step a (created e o) h = rw h
  birth_step a (minted e o) h = refl
  birth_step a _ h = refl

  -- A pair that no event creates is not there.
  absent-run :
      (a : Bytes) (es : List Event) (s : Store g db)
      → IsKeyed g db s
      → pair_at g db a s ≡ none
      → All (λ e. is_creation a e ≡ false) es
      → pair_at g db a (run g db es s) ≡ none
  unfolding run after
  absent-run a [] s keyed h _ = h
  absent-run a (e ∷ es) s keyed h (here, later) =
      absent-run a es (handle g db e s) (handle-IsKeyed g db e s keyed)
        (pair_at-handle g db a e s keyed ∙ ap (after g db a e) h ∙ birth_step a e here) later

  -- A pair after its creation: the fresh entity, moved on by the events that follow.
  pub pair_after_creation :
      (before later : List Event) (e : PairCreated) (o : Origin)
      → All (λ x. is_creation e.pair x ≡ false) before
      → pair_at g db e.pair (run g db (before ++ created e o ∷ later) (empty_store g db))
        ≡ some (advance_all g e.pair later (new_pair e o))
  unfolding run after birth
  pair_after_creation before later e o fresh =
      let s = run g db before (empty_store g db) in
      let keyed = run-IsKeyed g db before (empty_store g db) (empty_store-IsKeyed g db) in
      let absent =
        absent-run e.pair before (empty_store g db) (empty_store-IsKeyed g db)
          (db.load-empty Pair e.pair) fresh in
      let born : pair_at g db e.pair (handle g db (created e o) s) ≡ some (new_pair e o) =
        pair_at-handle g db e.pair (created e o) s keyed
        ∙ ap (after g db e.pair (created e o)) absent
        ∙ rw (eq_refl e.pair) in
      ap (pair_at g db e.pair) (run-append g db before (created e o ∷ later) (empty_store g db))
      ∙ pair_at-run g db e.pair later _ (new_pair e o) (handle-IsKeyed g db (created e o) s keyed)
          born
