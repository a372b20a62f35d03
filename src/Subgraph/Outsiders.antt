-- ===== src/Subgraph/Outsiders.antt =====
-- Events of contracts that the factory has not announced.
use flux_swap_dex.Common.{
  Bool, true, false, List, [], ◌∷◌, none, str_eq, eq_iff, if◌then◌else◌, ◌≡◌, ◌≢◌, ◌∙◌, refl, ap,
  Bool-cases, inl, inr, All,
}
use flux_swap_dex.Subgraph.Entities.{Bytes, GraphTs, Tables, Pair}
use flux_swap_dex.Subgraph.Factory.{Store}
use flux_swap_dex.Subgraph.Pairs.{
  handle_mint, handle_burn, handle_swap, handle_sync, handle_transfer,
}
use flux_swap_dex.Subgraph.Runs.{empty_store-IsKeyed, handle-IsKeyed}
use flux_swap_dex.Subgraph.Steps.{birth, after, pair_at-handle}
use flux_swap_dex.Subgraph.Trace.{
  Event, created, minted, burned, swapped, synced, transferred, handle, run, pair_at, IsKeyed,
  empty_store,
}

-- Whether the contract at the address has sent the event, as a pair.
abbrev pub is_sent_by : Bytes → Event → Bool
is_sent_by a (created e o) = false
is_sent_by a (minted e o) = str_eq o.address a
is_sent_by a (burned e o) = str_eq o.address a
is_sent_by a (swapped e o) = str_eq o.address a
is_sent_by a (synced e o) = str_eq o.address a
is_sent_by a (transferred e o) = str_eq o.address a

-- The events without those that the contract at the address has sent.
unfoldable pub without : Bytes → List Event → List Event
without a [] = []
without a (e ∷ es) = let rest = without a es in if is_sent_by a e then rest else e ∷ rest

-- An event that does not announce a pair at the address.
abbrev pub IsNoBirth : Bytes → Event → Type 0
IsNoBirth a (created e o) = e.pair ≢ a
IsNoBirth a _ = Unit

birth-none : (a : Bytes) (e : Event) → IsNoBirth a e → birth a e ≡ none
unfolding birth
birth-none a (created e o) h = elim (Bool-cases (str_eq e.pair a)) [
  | inl same ↦ absurd (h ((eq_iff e.pair a).0 same))
  | inr other ↦ rw other
]
birth-none a (minted e o) h = refl
birth-none a (burned e o) h = refl
birth-none a (swapped e o) h = refl
birth-none a (synced e o) h = refl
birth-none a (transferred e o) h = refl

module _ (g : GraphTs) (db : Tables) where
  absent_there :
      (b a : Bytes) (s : Store g db)
      → str_eq b a ≡ true
      → pair_at g db a s ≡ none
      → pair_at g db b s ≡ none
  absent_there b a s same missing = rw ((eq_iff b a).0 same) missing

  ignored :
      (a : Bytes) (e : Event) (s : Store g db)
      → is_sent_by a e ≡ true
      → pair_at g db a s ≡ none
      → handle g db e s ≡ s
  unfolding handle handle_mint handle_burn handle_swap handle_sync handle_transfer
  ignored a (created e o) s h missing = cc
  ignored a (minted e o) s h missing = rw (absent_there o.address a s h missing)
  ignored a (burned e o) s h missing = rw (absent_there o.address a s h missing)
  ignored a (swapped e o) s h missing = rw (absent_there o.address a s h missing)
  ignored a (synced e o) s h missing = rw (absent_there o.address a s h missing)
  ignored a (transferred e o) s h missing = rw (absent_there o.address a s h missing)

  run-without :
      (a : Bytes) (es : List Event) (s : Store g db)
      → IsKeyed g db s
      → pair_at g db a s ≡ none
      → All (IsNoBirth a) es
      → run g db es s ≡ run g db (without a es) s
  unfolding run without after
  run-without a [] s keyed missing h = refl
  run-without a (e ∷ es) s keyed missing (first, rest) =
      let still : pair_at g db a (handle g db e s) ≡ none =
        pair_at-handle g db a e s keyed ∙ ap (after g db a e) missing ∙ birth-none a e first in
      let next = run-without a es (handle g db e s) (handle-IsKeyed g db e s keyed) still rest in
      elim (Bool-cases (is_sent_by a e)) [
        | inl sent ↦ rw sent (next ∙ ap (run g db (without a es)) (ignored a e s sent missing))
        | inr other ↦ rw other next
      ]

  -- The events of a contract that the factory announces at no time leave no trace: the store after all events
  -- is the one after the same events without those that the contract has sent, with every entity, log
  -- and data source.
  pub outsider_ignored :
      (a : Bytes) (es : List Event)
      → All (IsNoBirth a) es
      → run g db es (empty_store g db) ≡ run g db (without a es) (empty_store g db)
  outsider_ignored a es =
      run-without a es (empty_store g db) (empty_store-IsKeyed g db) (db.load-empty Pair a)
