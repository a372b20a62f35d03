-- ===== src/LocalOrders/Sync/States.antt =====
-- The chains' states: what is seen again, and what a reorganisation shows.
use flux_swap_dex.Common.{
  ℕ, String, true, false, List, [], ◌∷◌, Option, none, some, ◌⊎◌, sym, str_eq, eq_iff, Option-cases,
  ◌==◌, if◌then◌else◌, ◌≡◌, refl, ap, ◌∙◌, arith, Bool-cases, inl, inr,
}
use flux_swap_dex.Common.BigInt.{to_string}
use flux_swap_dex.Common.BigInt.RoundTrip.{parse_big_int-to_string}
use flux_swap_dex.Common.Int.{ℤ, ltb_ℤ, ◌≤ℤ◌}
use mathlib.Core.Option.{some-injective}
use flux_swap_dex.Common.Text.{is_empty, trim, to_lower_case}
use flux_swap_dex.LocalOrders.{
  LocalLimitOrdersChainState, Storage, normalize_hash, write_stored_limit_orders,
  read_stored_chain_states, write_stored_chain_states,
}
use flux_swap_dex.LocalOrders.Sync.{
  Block, Promised, PublicClient, with_state, update_stored_chain_state,
  clear_stored_limit_orders_for_chain, state_of, replaced, must_clear_state, must_clear, follow,
  follow_block, latest, sync_local_limit_orders_with_chain,
}

state_of-with_state :
    (j : ℕ) (st : LocalLimitOrdersChainState) (xs : List LocalLimitOrdersChainState)
    → state_of j (with_state st xs) ≡ (if st.chain_id == j then some st else state_of j xs)
unfolding state_of with_state
state_of-with_state j st [] = refl
state_of-with_state j st (x ∷ xs) = ground (arith, state_of-with_state j st xs)

abbrev pub seen : ℕ → ℤ → String → LocalLimitOrdersChainState
seen chain_id number hash = record {
  chain_id = chain_id;
  last_seen_block_number = to_string number;
  last_seen_block_hash = normalize_hash hash;
}

states_of-clear :
    (chain_id : ℕ) (s : Storage)
    → read_stored_chain_states (clear_stored_limit_orders_for_chain chain_id s)
      ≡ read_stored_chain_states s
unfolding clear_stored_limit_orders_for_chain read_stored_chain_states write_stored_limit_orders
states_of-clear chain_id s = ground arith

available-clear :
    (chain_id : ℕ) (s : Storage)
    → (clear_stored_limit_orders_for_chain chain_id s).available ≡ s.available
unfolding clear_stored_limit_orders_for_chain write_stored_limit_orders
available-clear chain_id s = ground arith

state_of-update :
    (j chain_id : ℕ) (number : ℤ) (hash : String) (s : Storage)
    → s.available ≡ true
    → state_of j (read_stored_chain_states (update_stored_chain_state chain_id number hash s)) ≡ (
        if chain_id == j
        then some (seen chain_id number hash)
        else state_of j (read_stored_chain_states s))
unfolding update_stored_chain_state read_stored_chain_states write_stored_chain_states
state_of-update j chain_id number hash s there =
    rw there (state_of-with_state j (seen chain_id number hash) s.chain_states)

state_of-follow :
    (client : PublicClient) (j chain_id : ℕ) (number : ℤ) (hash : String) (s : Storage)
    → s.available ≡ true
    → state_of j (read_stored_chain_states (follow client chain_id number hash s).1) ≡ (
        if chain_id == j
        then some (seen chain_id number hash)
        else state_of j (read_stored_chain_states s))
unfolding follow
state_of-follow client j chain_id number hash s there =
    elim (Bool-cases
      (must_clear client chain_id number (state_of chain_id (read_stored_chain_states s)))) [
        | inl yes_clear ↦
            rw (yes_clear, ← states_of-clear chain_id s)
              (state_of-update j chain_id number hash
                (clear_stored_limit_orders_for_chain chain_id s)
                (available-clear chain_id s ∙ there))
        | inr no_clear ↦ rw no_clear (state_of-update j chain_id number hash s there)
      ]

latest-given :
    (client : PublicClient) (number : ℤ) (hash : String)
    → is_empty hash ≡ false
    → latest client (some number) (some hash)
      ≡ some (record { number = some number; hash = some hash })
unfolding latest
latest-given client number hash named = rw named

follow_block-known :
    (client : PublicClient) (chain_id : ℕ) (number : ℤ) (hash : String) (s : Storage)
    → is_empty hash ≡ false
    → follow_block client chain_id (record { number = some number; hash = some hash }) s
      ≡ follow client chain_id number hash s
unfolding follow_block
follow_block-known client chain_id number hash s named = rw named

sync-follow :
    (client : PublicClient) (chain_id : ℕ) (number : ℤ) (hash : String) (s : Storage)
    → is_empty hash ≡ false
    → sync_local_limit_orders_with_chain client chain_id (some number) (some hash) s
      ≡ (some (follow client chain_id number hash s).0, (follow client chain_id number hash s).1)
unfolding sync_local_limit_orders_with_chain
sync-follow client chain_id number hash s named =
    rw (latest-given client number hash named, sync_local_limit_orders_with_chain)
      (rw (follow_block-known client chain_id number hash s named) refl)

-- Following a chain to a block whose number and hash are given keeps that block as the state of the chain,
-- and keeps the states of the other chains, in a storage that is there.
pub state_of-sync :
    (client : PublicClient) (j chain_id : ℕ) (number : ℤ) (hash : String) (s : Storage)
    → s.available ≡ true
    → is_empty hash ≡ false
    → state_of j (
        read_stored_chain_states
          (sync_local_limit_orders_with_chain client chain_id (some number) (some hash) s).1)
      ≡ (if chain_id == j
          then some (seen chain_id number hash)
          else state_of j (read_stored_chain_states s))
state_of-sync client j chain_id number hash s there named =
    rw (sync-follow client chain_id number hash s named)
      (state_of-follow client j chain_id number hash s there)

must_clear_state-seen :
    (client : PublicClient) (chain_id : ℕ) (number later : ℤ) (hash : String)
    → is_empty hash ≡ false
    → normalize_hash hash ≡ hash
    → number ≤ℤ later
    → must_clear_state client later (seen chain_id number hash)
      ≡ replaced (client.get_block number) hash
unfolding must_clear_state
must_clear_state-seen client chain_id number later hash named normal le =
    let long : ltb_ℤ later number ≡ false = ground arith in
    rw (parse_big_int-to_string number, must_clear_state, normal, normal, named, long)

own_state : (j : ℕ) (x y : Option LocalLimitOrdersChainState) → (if j == j then x else y) ≡ x
own_state j x y = ground arith

follow-clear :
    (client : PublicClient) (chain_id : ℕ) (number : ℤ) (hash : String) (s : Storage)
    (st : LocalLimitOrdersChainState)
    → state_of chain_id (read_stored_chain_states s) ≡ some st
    → (follow client chain_id number hash s).0 ≡ must_clear_state client number st
unfolding follow must_clear
follow-clear client chain_id number hash s st known = rw known

-- The client gives the block, and its hash in the stored form is this one.
abbrev pub HasHash : Promised Block → String → Type 0
HasHash none hash = ⊥
HasHash (some b) hash =
    (given : String) × (b.hash ≡ some given) × (to_lower_case (trim given) ≡ hash)

hash-HasHash :
    (b : Block) (given hash : String)
    → b.hash ≡ some given
    → str_eq (normalize_hash given) hash ≡ false
    → HasHash (some b) hash
    → ⊥
unfolding normalize_hash
hash-HasHash b given hash there unlike (other, named, same) =
    let one : other ≡ given = some-injective _ _ (sym named ∙ there) in
    cc ((eq_iff (normalize_hash other) hash).1 same, one, unlike)

replaced-HasHash :
    (found : Promised Block) (hash : String)
    → is_empty hash ≡ false
    → ((replaced found hash ≡ false) × HasHash found hash)
      ⊎ ((replaced found hash ≡ true) × (HasHash found hash → ⊥))
unfolding replaced normalize_hash
replaced-HasHash none hash named = inr (refl, λ gone. gone)
replaced-HasHash (some b) hash named = elim (Option-cases b.hash) [
  | inl missing ↦ inr (rw missing refl, λ (given, there, same). cc (missing, there))
  | inr (given, there) ↦ elim (Bool-cases (str_eq (normalize_hash given) hash)) [
    | inl same ↦
        let equal : normalize_hash given ≡ hash = (eq_iff (normalize_hash given) hash).0 same in
        inl (rw (there, same, equal, named) refl, (given, there, equal))
    | inr unlike ↦ inr (rw (there, unlike) (ground arith), hash-HasHash b given hash there unlike)
  ]
]

sync-again_replaced :
    (before client : PublicClient) (chain_id : ℕ) (number later : ℤ) (hash next_hash : String)
    (s : Storage)
    → s.available ≡ true
    → is_empty hash ≡ false
    → normalize_hash hash ≡ hash
    → is_empty next_hash ≡ false
    → number ≤ℤ later
    → (sync_local_limit_orders_with_chain client chain_id
        (some later)
        (some next_hash)
        (sync_local_limit_orders_with_chain before chain_id (some number) (some hash) s).1).0
      ≡ some (replaced (client.get_block number) hash)
sync-again_replaced before client chain_id number later hash next_hash s there named normal next
      le =
    let s1 = (sync_local_limit_orders_with_chain before chain_id (some number) (some hash) s).1 in
    let state : state_of chain_id (read_stored_chain_states s1) ≡ some (seen chain_id number hash) =
      state_of-sync before chain_id chain_id number hash s there named ∙ own_state chain_id _ _ in
    rw (sync-follow client chain_id later next_hash s1 next) (
      ap some (
        follow-clear client chain_id later next_hash s1 (seen chain_id number hash) state
        ∙ must_clear_state-seen client chain_id number later hash named normal le))

-- Where a chain has been followed to a block with a hash in the stored form, following it again to the same
-- or a later block answers that it leaves its orders if the client still gives a block of that number whose
-- hash has that stored form, and that it clears them if it gives none, one without a hash or one with another
-- hash.
pub sync-again :
    (before client : PublicClient) (chain_id : ℕ) (number later : ℤ) (hash next_hash : String)
    (s : Storage)
    → s.available ≡ true
    → is_empty hash ≡ false
    → normalize_hash hash ≡ hash
    → is_empty next_hash ≡ false
    → number ≤ℤ later
    → let cleared =
        (sync_local_limit_orders_with_chain client chain_id
          (some later)
          (some next_hash)
          (sync_local_limit_orders_with_chain before chain_id (some number) (some hash) s).1).0 in
      ((cleared ≡ some false) × HasHash (client.get_block number) hash)
      ⊎ ((cleared ≡ some true) × (HasHash (client.get_block number) hash → ⊥))
sync-again before client chain_id number later hash next_hash s there named normal next le =
    let settled =
      sync-again_replaced before client chain_id number later hash next_hash s there named normal
        next le in
    elim (replaced-HasHash (client.get_block number) hash named) [
      | inl (kept, same) ↦ inl (settled ∙ ap some kept, same)
      | inr (lost, other) ↦ inr (settled ∙ ap some lost, other)
    ]
