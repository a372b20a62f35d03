-- ===== src/Api/Orders.antt =====
-- frontend/src/app/api/orders/route.ts: what the browser sends is checked and made a payload.
pub mod Payloads
pub mod Sources
pub mod Create
pub mod Cancel
pub mod Records
pub mod Query
pub mod Handlers
pub mod Tests
use Prim.Native.String.{◌++◌}
use flux_swap_dex.Common.{
  ℕ, suc, ◌+◌, String, Bool, true, false, List, [], ◌∷◌, Option, none, some, str_eq, if◌then◌else◌,
}
use flux_swap_dex.Common.BigInt.{nat_to_string}
use flux_swap_dex.Api.Values.{
  Value, array, Items, end, item, Attempt, ok, failed, ◌>>=◌, throw, Engine, to_number,
  positive_integer, field, filled, or_throw, or_else,
}
use flux_swap_dex.Api.Backend.{CreateOrderPayload, CancelOrderItemPayload, CancelOrdersPayload}

module _ (e : Engine) where
  unfoldable pub require_string : Value → String → Attempt String
  unfolding field filled
  require_string payload name = do
    value ← field e payload name
    or_throw (filled value) (name ++ " is required")

  -- `Number(payload.chainId)`, with its check.
  unfoldable pub require_chain_id : Value → String → Attempt ℕ
  unfolding field to_number positive_integer
  require_chain_id payload message = do
    value ← field e payload "chainId"
    or_throw (positive_integer (to_number e value)) message

  unfoldable pub normalize_create_order_body : Value → Attempt CreateOrderPayload
  unfolding require_string require_chain_id field filled
  normalize_create_order_body body = do
    chain_id ← require_chain_id body "chainId must be a positive integer"
    settlement_address ← require_string body "settlementAddress"
    order_hash ← require_string body "orderHash"
    maker ← require_string body "maker"
    input_token ← require_string body "inputToken"
    output_token ← require_string body "outputToken"
    amount_in ← require_string body "amountIn"
    min_amount_out ← require_string body "minAmountOut"
    max_executor_reward_bps ← require_string body "maxExecutorRewardBps"
    trigger_price_x18 ← require_string body "triggerPriceX18"
    expiry ← require_string body "expiry"
    nonce ← require_string body "nonce"
    recipient ← require_string body "recipient"
    signature ← require_string body "signature"
    source ← field e body "source"
    ok (record {
      chain_id = chain_id;
      settlement_address = settlement_address;
      order_hash = order_hash;
      maker = maker;
      input_token = input_token;
      output_token = output_token;
      amount_in = amount_in;
      min_amount_out = min_amount_out;
      max_executor_reward_bps = max_executor_reward_bps;
      trigger_price_x18 = trigger_price_x18;
      expiry = expiry;
      nonce = nonce;
      recipient = recipient;
      signature = signature;
      source = or_else (filled source) "frontend";
    })

  unfoldable pub normalize_cancel_order_item : Value → ℕ → Attempt CancelOrderItemPayload
  unfolding require_string require_chain_id field filled nat_to_string
  normalize_cancel_order_item value index = do
    chain_id ←
        require_chain_id value
          ("orders[" ++ nat_to_string index ++ "].chainId must be a positive integer")
    settlement_address ← require_string value "settlementAddress"
    order_hash ← require_string value "orderHash"
    maker ← require_string value "maker"
    reason ← field e value "reason"
    ok (record {
      chain_id = chain_id;
      settlement_address = settlement_address;
      order_hash = order_hash;
      maker = maker;
      reason = or_else (filled reason) "";
    })

  -- `orders.map((item, index) => normalizeCancelOrderItem(item, index))`
  unfoldable pub normalize_items : Items → ℕ → Attempt (List CancelOrderItemPayload)
  unfolding normalize_cancel_order_item
  normalize_items end index = ok []
  normalize_items (item value rest) index = do
    first ← normalize_cancel_order_item value index
    others ← normalize_items rest (suc index)
    ok (first ∷ others)

  -- `Array.isArray(payload.orders) ? payload.orders : []`, which must not be empty.
  unfoldable pub some_items : Value → Attempt Items
  some_items (array (item value rest)) = ok (item value rest)
  some_items _ = throw "orders must not be empty"

  unfoldable pub normalize_cancel_orders_body : Value → Attempt CancelOrdersPayload
  unfolding field some_items normalize_items require_string
  normalize_cancel_orders_body body = do
    orders ← field e body "orders"
    items ← some_items orders
    checked ← normalize_items items 0
    cancel_tx_hash ← require_string body "cancelTxHash"
    ok (record { orders = checked; cancel_tx_hash = cancel_tx_hash })
