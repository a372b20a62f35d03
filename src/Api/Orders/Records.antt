-- ===== src/Api/Orders/Records.antt =====
-- frontend/src/app/api/orders/route.ts: the orders that the service sends, as the browser gets them.
use flux_swap_dex.Common.{
  ℕ, String, false, List, [], ◌∷◌, Option, none, some, if◌then◌else◌, ◌≡◌, Bool-cases, Option-cases,
  inl, inr, All,
}
use flux_swap_dex.Common.Text.{trim, is_empty}
use flux_swap_dex.Common.BigInt.{nat_to_string, to_string}
use flux_swap_dex.Api.Values.{
  whole, other, Value, number, big_integer, text, Engine, to_number, positive_integer,
}
use flux_swap_dex.Api.Backend.{GrpcLimitOrder, LimitOrderRecord}
use flux_swap_dex.Api.Orders.Payloads.{IsChainId, positive_integer-IsChainId}

unfoldable pub read_string : Value → String → String
unfolding trim to_string
read_string (text s) fallback = trim s
read_string (number (whole n)) fallback = to_string n
read_string (number (other s)) fallback = s
read_string (big_integer n) fallback = to_string n
read_string _ fallback = fallback

abbrev or_fallback : Option ℕ → ℕ → ℕ
or_fallback none fallback = fallback
or_fallback (some n) fallback = n

-- The chain that the order names, or the one that was asked for.
unfoldable pub chain_of : Engine → GrpcLimitOrder → ℕ → ℕ
unfolding read_string nat_to_string to_number positive_integer
chain_of e o fallback =
    or_fallback
      (positive_integer (to_number e (text (read_string o.chain_id (nat_to_string fallback)))))
      fallback

unfoldable pub map_grpc_order_to_limit_order_record :
    Engine → GrpcLimitOrder → ℕ → Option LimitOrderRecord
unfolding chain_of read_string
map_grpc_order_to_limit_order_record e o fallback =
    if is_empty (read_string o.order_hash "")
    then none
    else some (record {
      chain_id = chain_of e o fallback;
      settlement_address = read_string o.settlement_address "";
      order_hash = read_string o.order_hash "";
      maker = read_string o.maker "";
      input_token = read_string o.input_token "";
      output_token = read_string o.output_token "";
      amount_in = read_string o.amount_in "0";
      min_amount_out = read_string o.min_amount_out "0";
      max_executor_reward_bps = read_string o.max_executor_reward_bps "0";
      trigger_price_x18 = read_string o.trigger_price_x18 "0";
      expiry = read_string o.expiry "0";
      nonce = read_string o.nonce "0";
      recipient = read_string o.recipient "";
      source = read_string o.source "backend";
      status = read_string o.status "open";
      status_reason = read_string o.status_reason "";
      cancelled_tx_hash = read_string o.cancelled_tx_hash "";
      created_at = read_string o.created_at "";
      updated_at = read_string o.updated_at "";
    })

abbrev add_record : Option LimitOrderRecord → List LimitOrderRecord → List LimitOrderRecord
add_record none rest = rest
add_record (some r) rest = r ∷ rest

-- `.map((order) => …).filter((order) => order !== null)`
unfoldable pub map_orders : Engine → List GrpcLimitOrder → ℕ → List LimitOrderRecord
unfolding map_grpc_order_to_limit_order_record
map_orders e [] fallback = []
map_orders e (o ∷ rest) fallback =
    add_record (map_grpc_order_to_limit_order_record e o fallback) (map_orders e rest fallback)

-- A record that the browser can use: it has a hash, and the id of a chain.
pub record IsUsable (r : LimitOrderRecord) : Type 0 where
  pub order_hash : is_empty r.order_hash ≡ false
  pub chain_id : IsChainId r.chain_id

chain_of-IsChainId :
    (e : Engine) (o : GrpcLimitOrder) (fallback : ℕ)
    → IsChainId fallback
    → IsChainId (chain_of e o fallback)
unfolding chain_of
chain_of-IsChainId e o fallback h =
    elim (Option-cases
      (positive_integer (to_number e (text (read_string o.chain_id (nat_to_string fallback)))))) [
        | inl bad ↦ rw bad h
        | inr (n, good) ↦ rw good (
            positive_integer-IsChainId
              (to_number e (text (read_string o.chain_id (nat_to_string fallback)))) n good)
      ]

pub map_orders-IsUsable :
    (e : Engine) (os : List GrpcLimitOrder) (fallback : ℕ)
    → IsChainId fallback
    → All IsUsable (map_orders e os fallback)
unfolding map_orders map_grpc_order_to_limit_order_record
map_orders-IsUsable e [] fallback h = tt
map_orders-IsUsable e (o ∷ os) fallback h =
    elim (Bool-cases (is_empty (read_string o.order_hash ""))) [
      | inl missing ↦ rw missing (map_orders-IsUsable e os fallback h)
      | inr there ↦ rw there (
        record { order_hash = there; chain_id = chain_of-IsChainId e o fallback h },
        map_orders-IsUsable e os fallback h,
      )
    ]
