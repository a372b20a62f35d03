-- ===== src/LocalOrders/Tests.antt =====
-- The stored limit orders on a local chain that is followed, continued and reset.
use flux_swap_dex.Common.{
  ◌⊎◌, ◌≢◌, true, false, [], ◌∷◌, none, some, str_eq, ◌==◌, if◌then◌else◌, ◌≡◌, refl, arith,
}
use flux_swap_dex.Common.Int.{pos, ◌≤ℤ◌}
use flux_swap_dex.Common.Text.{trim, to_lower_case}
use flux_swap_dex.LocalOrders.{
  LocalLimitOrderRecord, Updates, Storage, order_key, build_order_key, read_stored_limit_orders,
  read_stored_chain_states, upsert_local_limit_order, patch_local_limit_order, normalize_hash,
}
use flux_swap_dex.LocalOrders.Patching.{IsUpdatedAt, order_at-patch}
use flux_swap_dex.LocalOrders.Merging.{
  order_at, IsKeyed, merged_with, order_at-upsert, upsert-IsKeyed,
}
use flux_swap_dex.LocalOrders.Sync.{
  PublicClient, state_of, replaced, sync_local_limit_orders_with_chain,
}
use flux_swap_dex.LocalOrders.Sync.Laws.{orders_after, sync-orders}
use flux_swap_dex.LocalOrders.Sync.States.{HasHash, seen, state_of-sync, sync-again}

abbrev an_order : LocalLimitOrderRecord
an_order = record {
  chain_id = 31337;
  settlement_address = "0xS";
  order_hash = "0xAA";
  maker = "0x1";
  input_token = "0x2";
  output_token = "0x3";
  amount_in = "10";
  min_amount_out = "9";
  max_executor_reward_bps = "30";
  trigger_price_x18 = "1";
  expiry = "99";
  nonce = "1";
  recipient = "0x1";
  source = "frontend";
  status = "open";
  status_reason = none;
  cancelled_tx_hash = none;
  created_at = "then";
  updated_at = "then";
}

abbrev same_order : LocalLimitOrderRecord
same_order = record an_order {
  order_hash = " 0xaa";
  status = "cancelled";
  created_at = "now";
  updated_at = "now";
}

abbrev full : Storage
full = record { available = true; orders = an_order ∷ []; chain_states = [] }

-- The same hash in other letters is the same order, whose date of creation stays.
upserted_order :
    (upsert_local_limit_order same_order full).orders
    ≡ record same_order { created_at = "then" } ∷ []
unfolding upsert_local_limit_order trim to_lower_case
upserted_order = refl

order_at-upsert_example :
    order_at
      (build_order_key same_order)
      (read_stored_limit_orders (upsert_local_limit_order same_order full))
    ≡ (if str_eq (build_order_key same_order) (build_order_key same_order)
        then some (
            merged_with same_order
              (order_at (build_order_key same_order) (read_stored_limit_orders full)))
        else order_at (build_order_key same_order) (read_stored_limit_orders full))
order_at-upsert_example = order_at-upsert (build_order_key same_order) same_order full refl

full-IsKeyed : IsKeyed (read_stored_limit_orders full)
unfolding read_stored_limit_orders order_at
full-IsKeyed = (refl, tt)

upsert-IsKeyed_example :
    IsKeyed (read_stored_limit_orders (upsert_local_limit_order same_order full))
upsert-IsKeyed_example = upsert-IsKeyed same_order full full-IsKeyed

abbrev filled : Updates
filled = record {
  chain_id = none;
  settlement_address = none;
  order_hash = none;
  maker = none;
  input_token = none;
  output_token = none;
  amount_in = none;
  min_amount_out = none;
  max_executor_reward_bps = none;
  trigger_price_x18 = none;
  expiry = none;
  nonce = none;
  recipient = none;
  source = none;
  status = some "filled";
  status_reason = none;
  cancelled_tx_hash = none;
  created_at = none;
  updated_at = some "now";
}

order_at-patch_example :
    let key = build_order_key an_order in
    let before = read_stored_limit_orders full in
    let after = read_stored_limit_orders (patch_local_limit_order 31337 "0xs" "0xaa" filled full) in
    (order_key 31337 "0xs" "0xaa" ≡ key
      → IsUpdatedAt filled (order_at key before) (order_at key after))
    × (order_key 31337 "0xs" "0xaa" ≢ key → order_at key after ≡ order_at key before)
order_at-patch_example =
    order_at-patch (build_order_key an_order) 31337 "0xs" "0xaa" filled full refl (refl, refl, refl)

-- A chain that has the block "0xb7" of number 7, and one that has been reset.
abbrev chain : PublicClient
chain = record {
  latest_block = none;
  get_block = λ n. some (record { number = some n; hash = some "0xb7" });
}

abbrev reset_chain : PublicClient
reset_chain = record { latest_block = none; get_block = λ n. none }

sync-orders_example :
    read_stored_limit_orders
      (sync_local_limit_orders_with_chain chain 31337 (some (pos 7)) (some "0xb7") full).1
    ≡ orders_after 31337
        (sync_local_limit_orders_with_chain chain 31337 (some (pos 7)) (some "0xb7") full).0
        (read_stored_limit_orders full)
sync-orders_example = sync-orders chain 31337 (some (pos 7)) (some "0xb7") full

-- A local chain that is new to the program starts without orders.
first_sync :
    (sync_local_limit_orders_with_chain chain 31337 (some (pos 7)) (some "0xb7") full).1.orders ≡ []
unfolding sync_local_limit_orders_with_chain
first_sync = refl

state_of-sync_example :
    state_of 31337 (
      read_stored_chain_states
        (sync_local_limit_orders_with_chain chain 31337 (some (pos 7)) (some "0xb7") full).1)
    ≡ (if 31337 == 31337
        then some (seen 31337 (pos 7) "0xb7")
        else state_of 31337 (read_stored_chain_states full))
state_of-sync_example = state_of-sync chain 31337 31337 (pos 7) "0xb7" full refl refl

normal_hash : normalize_hash "0xb7" ≡ "0xb7"
unfolding normalize_hash
normal_hash = refl

kept_chain : replaced (chain.get_block (pos 7)) "0xb7" ≡ false
unfolding replaced trim to_lower_case
kept_chain = refl

lost_chain : replaced (reset_chain.get_block (pos 7)) "0xb7" ≡ true
unfolding replaced
lost_chain = refl

seven_first : pos 7 ≤ℤ pos 9
seven_first = omega arith

sync-again_example :
    let cleared =
      (sync_local_limit_orders_with_chain chain 31337
        (some (pos 9))
        (some "0xb9")
        (sync_local_limit_orders_with_chain chain 31337 (some (pos 7)) (some "0xb7") full).1).0 in
    ((cleared ≡ some false) × HasHash (chain.get_block (pos 7)) "0xb7")
    ⊎ ((cleared ≡ some true) × (HasHash (chain.get_block (pos 7)) "0xb7" → ⊥))
sync-again_example =
    sync-again chain chain 31337 (pos 7) (pos 9) "0xb7" "0xb9" full refl refl normal_hash refl
      seven_first
