-- ===== src/LocalOrders.antt =====
-- frontend/src/lib/localLimitOrders.ts: the limit orders that the browser keeps in its storage.
-- A list is kept in the storage as JSON; the model keeps the list that the JSON stands for, which is
-- what the program reads back. An optional field that is `none` is a key that is not there.
pub mod Merging
pub mod Patching
pub mod Sync
pub mod Tests
use Prim.Native.String.{◌++◌}
use flux_swap_dex.Common.{
  ℕ, String, Bool, true, false, List, [], ◌∷◌, Option, none, some, str_eq, ◌==◌, if◌then◌else◌,
  select, find_first, not,
}
use flux_swap_dex.Common.BigInt.{nat_to_string}
use flux_swap_dex.Common.Text.{trim, to_lower_case, is_empty}

pub record LocalLimitOrderRecord : Type 0 where
  pub chain_id : ℕ
  pub settlement_address : String
  pub order_hash : String
  pub maker : String
  pub input_token : String
  pub output_token : String
  pub amount_in : String
  pub min_amount_out : String
  pub max_executor_reward_bps : String
  pub trigger_price_x18 : String
  pub expiry : String
  pub nonce : String
  pub recipient : String
  pub source : String
  pub status : String
  pub status_reason : Option String
  pub cancelled_tx_hash : Option String
  pub created_at : String
  pub updated_at : String

-- `Partial<LocalLimitOrderRecord>`
pub record Updates : Type 0 where
  pub chain_id : Option ℕ
  pub settlement_address : Option String
  pub order_hash : Option String
  pub maker : Option String
  pub input_token : Option String
  pub output_token : Option String
  pub amount_in : Option String
  pub min_amount_out : Option String
  pub max_executor_reward_bps : Option String
  pub trigger_price_x18 : Option String
  pub expiry : Option String
  pub nonce : Option String
  pub recipient : Option String
  pub source : Option String
  pub status : Option String
  pub status_reason : Option String
  pub cancelled_tx_hash : Option String
  pub created_at : Option String
  pub updated_at : Option String

pub record LocalLimitOrdersChainState : Type 0 where
  pub chain_id : ℕ
  pub last_seen_block_number : String
  pub last_seen_block_hash : String

-- What the storage holds for the program, where there is a storage.
pub record Storage : Type 0 where
  pub available : Bool
  pub orders : List LocalLimitOrderRecord
  pub chain_states : List LocalLimitOrdersChainState

unfoldable pub normalize_address : String → String
unfolding trim to_lower_case
normalize_address value = to_lower_case (trim value)

unfoldable pub normalize_hash : String → String
unfolding trim to_lower_case
normalize_hash value = to_lower_case (trim value)

unfoldable pub order_key : ℕ → String → String → String
unfolding normalize_address normalize_hash nat_to_string
order_key chain_id settlement_address order_hash =
    nat_to_string chain_id
    ++ ":"
    ++ normalize_address settlement_address
    ++ ":"
    ++ normalize_hash order_hash

unfoldable pub build_order_key : LocalLimitOrderRecord → String
unfolding order_key
build_order_key o = order_key o.chain_id o.settlement_address o.order_hash

unfoldable pub read_stored_limit_orders : Storage → List LocalLimitOrderRecord
read_stored_limit_orders s = if s.available then s.orders else []

unfoldable pub write_stored_limit_orders : List LocalLimitOrderRecord → Storage → Storage
write_stored_limit_orders orders s = if s.available then record s { orders = orders } else s

unfoldable pub read_stored_chain_states : Storage → List LocalLimitOrdersChainState
read_stored_chain_states s = if s.available then s.chain_states else []

unfoldable pub write_stored_chain_states : List LocalLimitOrdersChainState → Storage → Storage
write_stored_chain_states states s = if s.available then record s { chain_states = states } else s

-- The list with the first order of the key changed, or `none` where no order has the key.
unfoldable pub changed_at :
    String
    → (LocalLimitOrderRecord → LocalLimitOrderRecord)
    → List LocalLimitOrderRecord
    → Option (List LocalLimitOrderRecord)
unfolding build_order_key
changed_at key change [] = none
changed_at key change (o ∷ rest) =
    let others = changed_at key change rest in
    if str_eq (build_order_key o) key
    then some (change o ∷ rest)
    else elim others [ none ↦ none | some xs ↦ some (o ∷ xs) ]

abbrev pub or_old {ℓ} : {A : Type ℓ} → Option A → A → A
or_old none old = old
or_old (some new) old = new

abbrev pub or_old_option : Option String → Option String → Option String
or_old_option none old = old
or_old_option (some new) old = some new

-- `{ ...old, ...order, createdAt: old.createdAt || order.createdAt }`
unfoldable pub merged : LocalLimitOrderRecord → LocalLimitOrderRecord → LocalLimitOrderRecord
merged order old = record order {
  status_reason = or_old_option order.status_reason old.status_reason;
  cancelled_tx_hash = or_old_option order.cancelled_tx_hash old.cancelled_tx_hash;
  created_at = if is_empty old.created_at then order.created_at else old.created_at;
}

unfoldable pub upserted :
    LocalLimitOrderRecord → List LocalLimitOrderRecord → List LocalLimitOrderRecord
unfolding build_order_key changed_at merged
upserted order orders = elim (changed_at (build_order_key order) (merged order) orders) [
  | none ↦ order ∷ orders
  | some next ↦ next
]

unfoldable pub upsert_local_limit_order : LocalLimitOrderRecord → Storage → Storage
unfolding read_stored_limit_orders write_stored_limit_orders upserted
upsert_local_limit_order order s =
    write_stored_limit_orders (upserted order (read_stored_limit_orders s)) s

-- `{ ...old, ...updates }`
unfoldable pub patched : Updates → LocalLimitOrderRecord → LocalLimitOrderRecord
patched u old = record {
  chain_id = or_old u.chain_id old.chain_id;
  settlement_address = or_old u.settlement_address old.settlement_address;
  order_hash = or_old u.order_hash old.order_hash;
  maker = or_old u.maker old.maker;
  input_token = or_old u.input_token old.input_token;
  output_token = or_old u.output_token old.output_token;
  amount_in = or_old u.amount_in old.amount_in;
  min_amount_out = or_old u.min_amount_out old.min_amount_out;
  max_executor_reward_bps = or_old u.max_executor_reward_bps old.max_executor_reward_bps;
  trigger_price_x18 = or_old u.trigger_price_x18 old.trigger_price_x18;
  expiry = or_old u.expiry old.expiry;
  nonce = or_old u.nonce old.nonce;
  recipient = or_old u.recipient old.recipient;
  source = or_old u.source old.source;
  status = or_old u.status old.status;
  status_reason = or_old_option u.status_reason old.status_reason;
  cancelled_tx_hash = or_old_option u.cancelled_tx_hash old.cancelled_tx_hash;
  created_at = or_old u.created_at old.created_at;
  updated_at = or_old u.updated_at old.updated_at;
}

-- `patchLocalLimitOrder(order, updates)`; of `order`, the three fields of its key are read.
unfoldable pub patch_local_limit_order : ℕ → String → String → Updates → Storage → Storage
unfolding order_key read_stored_limit_orders write_stored_limit_orders changed_at patched
patch_local_limit_order chain_id settlement_address order_hash updates s =
    elim (changed_at (order_key chain_id settlement_address order_hash) (patched updates)
      (read_stored_limit_orders s)) [ none ↦ s | some next ↦ write_stored_limit_orders next s ]
