-- ===== src/LocalOrders/Sync.antt =====
-- frontend/src/lib/localLimitOrders.ts: following a chain, which may be reset or reorganised.
pub mod Laws
pub mod States
use flux_swap_dex.Common.{
  ℕ, String, Bool, true, false, List, [], ◌∷◌, Option, none, some, str_eq, ◌==◌, ◌||◌, ◌&&◌,
  if◌then◌else◌, select, find_first, not, length,
}
use flux_swap_dex.Common.BigInt.{parse_big_int, to_string}
use flux_swap_dex.Common.Int.{ℤ, ltb_ℤ}
use flux_swap_dex.Common.Text.{is_empty}
use flux_swap_dex.LocalOrders.{
  LocalLimitOrderRecord, LocalLimitOrdersChainState, Storage, normalize_hash,
  read_stored_limit_orders, write_stored_limit_orders, read_stored_chain_states,
  write_stored_chain_states,
}

-- A block as viem gives it: a pending block has no number and no hash.
pub record Block : Type 0 where
  pub number : Option ℤ
  pub hash : Option String

-- The result of a promise; `none` where it is rejected.
abbrev pub Promised : Type 0 → Type 0
Promised A = Option A

-- What the program uses of viem's client: the latest block, and the block of a number.
pub record PublicClient : Type 0 where
  pub latest_block : Promised Block
  pub get_block : ℤ → Promised Block

-- `hardhat.id` of wagmi
abbrev pub hardhat_id : ℕ
hardhat_id = 31337

abbrev pub text_or_empty : Option String → String
text_or_empty none = ""
text_or_empty (some s) = s

unfoldable pub with_state :
    LocalLimitOrdersChainState → List LocalLimitOrdersChainState → List LocalLimitOrdersChainState
with_state next [] = next ∷ []
with_state next (st ∷ rest) =
    if st.chain_id == next.chain_id then next ∷ rest else st ∷ with_state next rest

unfoldable pub update_stored_chain_state : ℕ → ℤ → String → Storage → Storage
unfolding with_state normalize_hash to_string read_stored_chain_states write_stored_chain_states
update_stored_chain_state chain_id number hash s =
    write_stored_chain_states
      (with_state
        (record {
          chain_id = chain_id;
          last_seen_block_number = to_string number;
          last_seen_block_hash = normalize_hash hash;
        })
        (read_stored_chain_states s))
      s

-- `orders.filter((order) => order.chainId !== chainId)`
unfoldable pub other_orders : ℕ → List LocalLimitOrderRecord → List LocalLimitOrderRecord
other_orders chain_id [] = []
other_orders chain_id (o ∷ rest) =
    if o.chain_id == chain_id then other_orders chain_id rest else o ∷ other_orders chain_id rest

unfoldable pub clear_stored_limit_orders_for_chain : ℕ → Storage → Storage
unfolding other_orders read_stored_limit_orders write_stored_limit_orders
clear_stored_limit_orders_for_chain chain_id s =
    let orders = read_stored_limit_orders s in
    let next = other_orders chain_id orders in
    if length next == length orders then s else write_stored_limit_orders next s

unfoldable pub state_of : ℕ → List LocalLimitOrdersChainState → Option LocalLimitOrdersChainState
state_of chain_id [] = none
state_of chain_id (st ∷ rest) = if st.chain_id == chain_id then some st else state_of chain_id rest

-- Whether the chain has another block now where the stored one was seen, or none.
unfoldable pub replaced : Promised Block → String → Bool
unfolding normalize_hash
replaced none stored_hash = true
replaced (some b) stored_hash =
    let hash = normalize_hash (text_or_empty b.hash) in
    is_empty hash || not (str_eq hash stored_hash)

unfoldable pub must_clear_state : PublicClient → ℤ → LocalLimitOrdersChainState → Bool
unfolding parse_big_int normalize_hash replaced
must_clear_state client number st = elim (parse_big_int st.last_seen_block_number) [
  | none ↦ true
  | some stored ↦
      let stored_hash = normalize_hash st.last_seen_block_hash in
      if is_empty stored_hash || ltb_ℤ number stored
      then true
      else replaced (client.get_block stored) stored_hash
]

unfoldable pub must_clear : PublicClient → ℕ → ℤ → Option LocalLimitOrdersChainState → Bool
unfolding must_clear_state
must_clear client chain_id number none = chain_id == hardhat_id
must_clear client chain_id number (some st) = must_clear_state client number st

-- The rest of the function, for a block whose number and hash are known.
unfoldable pub follow : PublicClient → ℕ → ℤ → String → Storage → Bool × Storage
unfolding must_clear state_of read_stored_chain_states clear_stored_limit_orders_for_chain
    update_stored_chain_state
follow client chain_id number hash s =
    let clear =
      must_clear client chain_id number (state_of chain_id (read_stored_chain_states s)) in
    let cleared = if clear then clear_stored_limit_orders_for_chain chain_id s else s in
    (clear, update_stored_chain_state chain_id number hash cleared)

unfoldable pub follow_block : PublicClient → ℕ → Block → Storage → Bool × Storage
unfolding follow
follow_block client chain_id b s = elim b.number [
  | none ↦ (false, s)
  | some number ↦
      if is_empty (text_or_empty b.hash)
      then (false, s)
      else follow client chain_id number (text_or_empty b.hash) s
]

-- `latestBlockNumber !== undefined && latestBlockHash ? … : await publicClient.getBlock()`
unfoldable pub latest : PublicClient → Option ℤ → Option String → Promised Block
latest client none hash = client.latest_block
latest client (some number) hash =
    if is_empty (text_or_empty hash)
    then client.latest_block
    else some (record { number = some number; hash = hash })

unfoldable pub sync_local_limit_orders_with_chain :
    PublicClient → ℕ → Option ℤ → Option String → Storage → Promised Bool × Storage
unfolding latest follow_block
sync_local_limit_orders_with_chain client chain_id number hash s =
    elim (latest client number hash) [
      | none ↦ (none, s)
      | some b ↦ let (clear, next) = follow_block client chain_id b s in (some clear, next)
    ]
