-- ===== src/Subgraph/Steps.antt =====
-- What one event does to the entity of one pair.
use flux_swap_dex.Common.{
  ◌∙◌, ◌+◌, Option, none, some, ◌≡◌, refl, sym, str_eq, eq_iff, if◌then◌else◌, Option-cases,
  Bool-cases, inl, inr, true, false, Bool,
}
use mathlib.Core.Option.{none-ne-some}
use flux_swap_dex.Subgraph.Entities.{Bytes, GraphTs, Tables, Pair, Origin}
use flux_swap_dex.Subgraph.Factory.{
  Store, PairCreated, handle_pair_created, create_pair_if_missing, new_pair,
}
use flux_swap_dex.Subgraph.Pairs.{
  with_pair, handle_mint, handle_burn, handle_swap, handle_sync, handle_transfer, supply_after,
}
use flux_swap_dex.Subgraph.Trace.{
  Event, created, minted, burned, swapped, synced, transferred, handle, pair_at, IsKeyed,
}

-- The pair `p` of the address `a` after an event, if the event is one of `a`'s.
module _ (g : GraphTs) where
  touch : Bytes → Origin → Pair → Pair → Pair
  touch a o q p = if str_eq o.address a then q else p

  unfoldable pub advance : Bytes → Event → Pair → Pair
  unfolding touch
  advance a (created e o) p = p
  advance a (minted e o) p =
      touch a o (record p { mint_count = p.mint_count + 1; tx_count = p.tx_count + 1 }) p
  advance a (burned e o) p =
      touch a o (record p { burn_count = p.burn_count + 1; tx_count = p.tx_count + 1 }) p
  advance a (swapped e o) p =
      touch a o (record p { swap_count = p.swap_count + 1; tx_count = p.tx_count + 1 }) p
  advance a (synced e o) p = touch a o (record p { reserve0 = e.reserve0; reserve1 = e.reserve1 }) p
  advance a (transferred e o) p =
      touch a o (record p { total_supply = supply_after g e p.total_supply }) p

-- The entity that an event brings up at the address `a`, where there is none.
unfoldable pub birth : Bytes → Event → Option Pair
birth a (created e o) = if str_eq e.pair a then some (new_pair e o) else none
birth a _ = none

abbrev mapped : (Pair → Pair) → Option Pair → Option Pair
mapped f none = none
mapped f (some p) = some (f p)

module _ (g : GraphTs) (db : Tables) where
  -- A saved pair that keeps its id replaces the entity under it and no other.
  load-save_same :
      (a b : Bytes) (q : Pair) (t : db.Table Pair)
      → q.id ≡ b
      → db.load Pair a (db.save Pair q.id q t) ≡ (if str_eq b a then some q else db.load Pair a t)
  load-save_same a b q t h = rw (db.load-save Pair q.id a q t, h)

  load-create_absent :
      (a : Bytes) (e : PairCreated) (o : Origin) (t : db.Table Pair)
      → db.load Pair a t ≡ none
      → db.load Pair a (create_pair_if_missing g db e o t) ≡ birth a (created e o)
  unfolding create_pair_if_missing birth
  load-create_absent a e o t h = elim (Option-cases (db.load Pair e.pair t)) [
    | inl missing ↦
        rw (missing, create_pair_if_missing, db.load-save Pair e.pair a (new_pair e o) t, h)
    | inr (q, found) ↦ elim (Bool-cases (str_eq e.pair a)) [
      | inl same ↦
          let here : db.load Pair a t ≡ some q = rw (← (eq_iff _ _).0 same) found in cc (h, here)
      | inr other ↦ rw (found, create_pair_if_missing, other) h
    ]
  ]

  -- The pairs that are there are not created again.
  load-create :
      (a : Bytes) (e : PairCreated) (o : Origin) (t : db.Table Pair) (p : Pair)
      → db.load Pair a t ≡ some p
      → db.load Pair a (create_pair_if_missing g db e o t) ≡ some p
  unfolding create_pair_if_missing
  load-create a e o t p h = elim (Option-cases (db.load Pair e.pair t)) [
    | inl missing ↦ elim (Bool-cases (str_eq e.pair a)) [
      | inl same ↦
          let found : db.load Pair e.pair t ≡ some p = rw ((eq_iff _ _).0 same) h in
          absurd (none-ne-some p (sym missing ∙ found))
      | inr other ↦
          rw (missing, create_pair_if_missing, db.load-save Pair e.pair a (new_pair e o) t, other) h
    ]
    | inr (q, found) ↦ rw (found, create_pair_if_missing) h
  ]

  update_lem :
      (a : Bytes) (o : Origin) (f : Pair → Store g db → Store g db) (change : Pair → Pair)
      (s : Store g db)
      → ((q : Pair)
          → pair_at g db o.address s ≡ some q
          → pair_at g db a (f q s)
            ≡ (if str_eq o.address a then some (change q) else pair_at g db a s))
      → pair_at g db a (with_pair g db (pair_at g db o.address s) f s)
        ≡ (if str_eq o.address a then mapped change (pair_at g db a s) else pair_at g db a s)
  update_lem a o f change s step = elim (Option-cases (pair_at g db o.address s)) [
    | inl missing ↦ elim (Bool-cases (str_eq o.address a)) [
      | inl same ↦
          let none_here : pair_at g db a s ≡ none = rw (← (eq_iff _ _).0 same) missing in
          rw (missing, same, none_here)
      | inr other ↦ rw (missing, other)
    ]
    | inr (q, found) ↦ elim (Bool-cases (str_eq o.address a)) [
      | inl same ↦
          let here : pair_at g db a s ≡ some q = rw (← (eq_iff _ _).0 same) found in
          rw (found, step q found, same, here)
      | inr other ↦ rw (found, step q found, other)
    ]
  ]

  -- The entity at `a` after an event.
  unfoldable pub after : Bytes → Event → Option Pair → Option Pair
  after a e none = birth a e
  after a e (some p) = some (advance g a e p)

  created_lem :
      (a : Bytes) (e : PairCreated) (o : Origin) (t : db.Table Pair)
      → db.load Pair a (create_pair_if_missing g db e o t)
        ≡ after a (created e o) (db.load Pair a t)
  unfolding after birth advance
  created_lem a e o t = elim (Option-cases (db.load Pair a t)) [
    | inr (p, found) ↦ rw found (load-create a e o t p found)
    | inl absent ↦ rw absent (load-create_absent a e o t absent)
  ]

  settle :
      (a : Bytes) (e : Event) (b : Bool) (change : Pair → Pair) (old : Option Pair)
      → birth a e ≡ none
      → ((p : Pair) → advance g a e p ≡ (if b then change p else p))
      → (if b then mapped change old else old) ≡ after a e old
  unfolding after
  settle a e true change none h k = rw h
  settle a e true change (some p) h k = rw (k p)
  settle a e false change none h k = rw h
  settle a e false change (some p) h k = rw (k p)

  -- One event changes the entity at `a` as `after` says.
  pub pair_at-handle :
      (a : Bytes) (e : Event) (s : Store g db)
      → IsKeyed g db s
      → pair_at g db a (handle g db e s) ≡ after a e (pair_at g db a s)
  unfolding handle handle_pair_created handle_mint handle_burn handle_swap handle_sync
      handle_transfer birth advance
  pair_at-handle a (created e o) s keyed = created_lem a e o s.pairs
  pair_at-handle a (minted e o) s keyed =
      let change : Pair → Pair =
        λ q. record q { mint_count = q.mint_count + 1; tx_count = q.tx_count + 1 } in
      update_lem a o _ change s (λ q found. load-save_same a o.address _ s.pairs (keyed _ q found))
      ∙ settle a (minted e o) _ change (pair_at g db a s) refl (λ p. refl)
  pair_at-handle a (burned e o) s keyed =
      let change : Pair → Pair =
        λ q. record q { burn_count = q.burn_count + 1; tx_count = q.tx_count + 1 } in
      update_lem a o _ change s (λ q found. load-save_same a o.address _ s.pairs (keyed _ q found))
      ∙ settle a (burned e o) _ change (pair_at g db a s) refl (λ p. refl)
  pair_at-handle a (swapped e o) s keyed =
      let change : Pair → Pair =
        λ q. record q { swap_count = q.swap_count + 1; tx_count = q.tx_count + 1 } in
      update_lem a o _ change s (λ q found. load-save_same a o.address _ s.pairs (keyed _ q found))
      ∙ settle a (swapped e o) _ change (pair_at g db a s) refl (λ p. refl)
  pair_at-handle a (synced e o) s keyed =
      let change : Pair → Pair = λ q. record q { reserve0 = e.reserve0; reserve1 = e.reserve1 } in
      update_lem a o _ change s (λ q found. load-save_same a o.address _ s.pairs (keyed _ q found))
      ∙ settle a (synced e o) _ change (pair_at g db a s) refl (λ p. refl)
  pair_at-handle a (transferred e o) s keyed =
      let change : Pair → Pair = λ q. record q { total_supply = supply_after g e q.total_supply } in
      update_lem a o _ change s (λ q found. load-save_same a o.address _ s.pairs (keyed _ q found))
      ∙ settle a (transferred e o) _ change (pair_at g db a s) refl (λ p. refl)
