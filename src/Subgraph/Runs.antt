-- ===== src/Subgraph/Runs.antt =====
-- A whole run: pairs stay under their ids, and each pair follows its own events.
use flux_swap_dex.Common.{
  ◌∙◌, ◌++◌, List, [], ◌∷◌, some, ◌≡◌, refl, sym, ap, arith, eq_iff, Option-cases, inl, inr,
}
use flux_swap_dex.Subgraph.Entities.{Bytes, GraphTs, Tables, Pair}
use flux_swap_dex.Subgraph.Factory.{Store, new_pair}
use flux_swap_dex.Subgraph.Steps.{birth, advance, after, pair_at-handle}
use flux_swap_dex.Subgraph.Trace.{
  Event, created, minted, burned, swapped, synced, transferred, handle, run, pair_at, IsKeyed,
  empty_store,
}

id-advance : (g : GraphTs) (a : Bytes) (e : Event) (p : Pair) → (advance g a e p).id ≡ p.id
unfolding advance
id-advance g a (created e o) p = refl
id-advance g a (minted e o) p = ground arith
id-advance g a (burned e o) p = ground arith
id-advance g a (swapped e o) p = ground arith
id-advance g a (synced e o) p = ground arith
id-advance g a (transferred e o) p = ground arith

id-birth : (a : Bytes) (e : Event) (p : Pair) → birth a e ≡ some p → p.id ≡ a
unfolding birth new_pair
id-birth a (created e o) p h = ground (arith, eq_iff e.pair a)
id-birth a (minted e o) p h = cc
id-birth a (burned e o) p h = cc
id-birth a (swapped e o) p h = cc
id-birth a (synced e o) p h = cc
id-birth a (transferred e o) p h = cc

-- A pair's fields after all the events, one by one.
module _ (g : GraphTs) where
  unfoldable pub advance_all : Bytes → List Event → Pair → Pair
  advance_all a [] p = p
  advance_all a (e ∷ es) p = advance_all a es (advance g a e p)

module _ (g : GraphTs) (db : Tables) where
  pub handle-IsKeyed :
      (e : Event) (s : Store g db) → IsKeyed g db s → IsKeyed g db (handle g db e s)
  unfolding after
  handle-IsKeyed e s keyed a p h = elim (Option-cases (pair_at g db a s)) [
    | inl absent ↦
        id-birth a e p
          (ap (after g db a e) (sym absent) ∙ sym (pair_at-handle g db a e s keyed) ∙ h)
    | inr (q, found) ↦
        let now : advance g a e q ≡ p =
          cc (ap (after g db a e) (sym found), pair_at-handle g db a e s keyed, h) in
        rw (← now) (id-advance g a e q ∙ keyed a q found)
  ]

  pub run-IsKeyed :
      (es : List Event) (s : Store g db) → IsKeyed g db s → IsKeyed g db (run g db es s)
  unfolding run
  run-IsKeyed [] s keyed = keyed
  run-IsKeyed (e ∷ es) s keyed = run-IsKeyed es (handle g db e s) (handle-IsKeyed e s keyed)

  pub pair_at-run :
      (a : Bytes) (es : List Event) (s : Store g db) (p : Pair)
      → IsKeyed g db s
      → pair_at g db a s ≡ some p
      → pair_at g db a (run g db es s) ≡ some (advance_all g a es p)
  unfolding run advance_all after
  pair_at-run a [] s p keyed h = h
  pair_at-run a (e ∷ es) s p keyed h =
      pair_at-run a es (handle g db e s) (advance g a e p) (handle-IsKeyed e s keyed)
        (pair_at-handle g db a e s keyed ∙ ap (after g db a e) h)

  pub empty_store-IsKeyed : IsKeyed g db (empty_store g db)
  empty_store-IsKeyed a p h = cc (db.load-empty Pair a, h)

  pub run-append :
      (es more : List Event) (s : Store g db)
      → run g db (es ++ more) s ≡ run g db more (run g db es s)
  unfolding run
  run-append [] more s = refl
  run-append (e ∷ es) more s = run-append es more (handle g db e s)
