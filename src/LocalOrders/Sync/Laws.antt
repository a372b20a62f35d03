-- ===== src/LocalOrders/Sync/Laws.antt =====
-- What following a chain does to the stored orders and to the states of the chains.
use flux_swap_dex.Common.{
  ℕ, suc, ◌≤◌, String, Bool, false, List, [], ◌∷◌, Option, none, some, ◌==◌, if◌then◌else◌, ◌≡◌,
  refl, ap, sym, ◌∙◌, arith, not, select, Bool-cases, Option-cases, inl, inr, length,
}
use flux_swap_dex.Common.Int.{ℤ}
use flux_swap_dex.Common.Text.{is_empty}
use flux_swap_dex.LocalOrders.{
  LocalLimitOrderRecord, Storage, read_stored_limit_orders, write_stored_limit_orders,
  read_stored_chain_states, write_stored_chain_states,
}
use flux_swap_dex.LocalOrders.Sync.{
  Block, Promised, PublicClient, text_or_empty, update_stored_chain_state, other_orders,
  clear_stored_limit_orders_for_chain, state_of, must_clear, follow, follow_block, latest,
  sync_local_limit_orders_with_chain,
}

length-other_orders :
    (chain_id : ℕ) (os : List LocalLimitOrderRecord) → length (other_orders chain_id os) ≤ length os
unfolding other_orders
length-other_orders chain_id [] = omega arith
length-other_orders chain_id (o ∷ os) = ground (arith, length-other_orders chain_id os)

-- A filter that drops nothing changes nothing.
none_dropped :
    (chain_id : ℕ) (os : List LocalLimitOrderRecord)
    → length (other_orders chain_id os) ≡ length os
    → other_orders chain_id os ≡ os
unfolding other_orders
none_dropped chain_id [] h = refl
none_dropped chain_id (o ∷ os) h = elim (Bool-cases (o.chain_id == chain_id)) [
  | inl same ↦
      let shorter : length (other_orders chain_id os) ≡ suc (length os) = rw same at h in
      absurd (omega (arith, shorter, length-other_orders chain_id os))
  | inr other ↦
      let rest : length (other_orders chain_id os) ≡ length os = omega (arith, rw other at h) in
      rw other (ap (λ xs. o ∷ xs) (none_dropped chain_id os rest))
]

read-write :
    (os : List LocalLimitOrderRecord) (s : Storage)
    → read_stored_limit_orders (write_stored_limit_orders os s) ≡ (if s.available then os else [])
unfolding read_stored_limit_orders write_stored_limit_orders
read-write os s = elim (Bool-cases s.available) [ inl there ↦ rw there | inr gone ↦ rw gone ]

no_storage : (s : Storage) → s.available ≡ false → read_stored_limit_orders s ≡ []
unfolding read_stored_limit_orders
no_storage s gone = rw gone

-- The chain's orders are gone and the others are there, in their order.
read-clear :
    (chain_id : ℕ) (s : Storage)
    → read_stored_limit_orders (clear_stored_limit_orders_for_chain chain_id s)
      ≡ other_orders chain_id (read_stored_limit_orders s)
unfolding clear_stored_limit_orders_for_chain
read-clear chain_id s =
    let orders = read_stored_limit_orders s in
    elim (Bool-cases (length (other_orders chain_id orders) == length orders)) [
      | inl same ↦ rw same (sym (none_dropped chain_id orders (ground (arith, same))))
      | inr fewer ↦ elim (Bool-cases s.available) [
        | inl there ↦ rw fewer (read-write (other_orders chain_id orders) s ∙ rw there)
        | inr gone ↦ cc (rw (no_storage s gone) at fewer)
      ]
    ]

read-update :
    (chain_id : ℕ) (number : ℤ) (hash : String) (s : Storage)
    → read_stored_limit_orders (update_stored_chain_state chain_id number hash s)
      ≡ read_stored_limit_orders s
unfolding update_stored_chain_state write_stored_chain_states read_stored_limit_orders
read-update chain_id number hash s = elim (Bool-cases s.available) [
  | inl there ↦ rw there
  | inr gone ↦ rw gone
]

other_orders-select :
    (chain_id : ℕ) (os : List LocalLimitOrderRecord)
    → other_orders chain_id os ≡ select (λ o. not (o.chain_id == chain_id)) os
unfolding other_orders
other_orders-select chain_id [] = refl
other_orders-select chain_id (o ∷ os) = elim (Bool-cases (o.chain_id == chain_id)) [
  | inl same ↦ rw same (other_orders-select chain_id os)
  | inr other ↦ rw other (ap (λ xs. o ∷ xs) (other_orders-select chain_id os))
]

-- The orders that are left once a promise is settled as it is.
abbrev pub orders_after :
    ℕ → Promised Bool → List LocalLimitOrderRecord → List LocalLimitOrderRecord
orders_after chain_id none os = os
orders_after chain_id (some clear) os =
    if clear then select (λ o. not (o.chain_id == chain_id)) os else os

follow-orders :
    (client : PublicClient) (chain_id : ℕ) (number : ℤ) (hash : String) (s : Storage)
    → read_stored_limit_orders (follow client chain_id number hash s).1
      ≡ orders_after chain_id
          (some (follow client chain_id number hash s).0)
          (read_stored_limit_orders s)
unfolding follow
follow-orders client chain_id number hash s =
    elim (Bool-cases
      (must_clear client chain_id number (state_of chain_id (read_stored_chain_states s)))) [
        | inl yes_clear ↦ rw yes_clear (
            read-update chain_id number hash (clear_stored_limit_orders_for_chain chain_id s)
            ∙ read-clear chain_id s
            ∙ other_orders-select chain_id (read_stored_limit_orders s))
        | inr no_clear ↦ rw no_clear (read-update chain_id number hash s)
      ]

follow_block-orders :
    (client : PublicClient) (chain_id : ℕ) (b : Block) (s : Storage)
    → read_stored_limit_orders (follow_block client chain_id b s).1
      ≡ orders_after chain_id
          (some (follow_block client chain_id b s).0)
          (read_stored_limit_orders s)
unfolding follow_block
follow_block-orders client chain_id b s = elim (Option-cases b.number) [
  | inl pending ↦ rw (pending, follow_block)
  | inr (number, known) ↦ elim (Bool-cases (is_empty (text_or_empty b.hash))) [
    | inl pending ↦ rw (known, follow_block, pending)
    | inr there ↦
        rw (known, follow_block, there)
          (follow-orders client chain_id number (text_or_empty b.hash) s)
  ]
]

-- Following a chain removes all of its orders where the promise is kept with `true`, and no order where it
-- is kept with `false` or rejected; the orders of other chains stay, in their order.
pub sync-orders :
    (client : PublicClient) (chain_id : ℕ) (number : Option ℤ) (hash : Option String) (s : Storage)
    → read_stored_limit_orders (sync_local_limit_orders_with_chain client chain_id number hash s).1
      ≡ orders_after chain_id
          (sync_local_limit_orders_with_chain client chain_id number hash s).0
          (read_stored_limit_orders s)
unfolding sync_local_limit_orders_with_chain
sync-orders client chain_id number hash s = elim (Option-cases (latest client number hash)) [
  | inl failed ↦ rw (failed, sync_local_limit_orders_with_chain)
  | inr (b, known) ↦
      rw (known, sync_local_limit_orders_with_chain) (follow_block-orders client chain_id b s)
]
