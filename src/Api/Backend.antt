-- ===== src/Api/Backend.antt =====
-- frontend/src/app/api/orders/route.ts: the messages of the gRPC service and the answers of the route.
use flux_swap_dex.Common.{
  ℕ, String, Bool, true, false, List, Option, none, some, if◌then◌else◌, ◌≡◌, Bool-cases, inl, inr,
}
use flux_swap_dex.Api.Values.{Value, Attempt, ok, throw}

pub record CreateOrderPayload : Type 0 where
  pub chain_id : ℕ
  pub settlement_address : String
  pub order_hash : String
  pub maker : String
  pub input_token : String
  pub output_token : String
  pub amount_in : String
  pub min_amount_out : String
  pub max_executor_reward_bps : String
  pub trigger_price_x18 : String
  pub expiry : String
  pub nonce : String
  pub recipient : String
  pub signature : String
  pub source : String

pub record CancelOrderItemPayload : Type 0 where
  pub chain_id : ℕ
  pub settlement_address : String
  pub order_hash : String
  pub maker : String
  pub reason : String

pub record CancelOrdersPayload : Type 0 where
  pub orders : List CancelOrderItemPayload
  pub cancel_tx_hash : String

pub record Notice : Type 0 where
  pub success : Option Bool
  pub code : Option String
  pub message : Option String
  pub hint : Option String
  pub stage : Option String

pub record GrpcCreateOrderResponse : Type 0 where
  pub order : Value
  pub notice : Option Notice

pub record GrpcLimitOrder : Type 0 where
  pub chain_id : Value
  pub settlement_address : Value
  pub order_hash : Value
  pub maker : Value
  pub input_token : Value
  pub output_token : Value
  pub amount_in : Value
  pub min_amount_out : Value
  pub max_executor_reward_bps : Value
  pub trigger_price_x18 : Value
  pub expiry : Value
  pub nonce : Value
  pub recipient : Value
  pub source : Value
  pub status : Value
  pub status_reason : Value
  pub cancelled_tx_hash : Value
  pub created_at : Value
  pub updated_at : Value

pub record GrpcCancelResult : Type 0 where
  pub chain_id : Value
  pub settlement_address : Value
  pub order_hash : Value
  pub cancelled : Option Bool
  pub error : Value
  pub code : Value
  pub message : Value
  pub hint : Value
  pub stage : Value
  pub order : Option GrpcLimitOrder

pub record GrpcCancelOrdersResponse : Type 0 where
  pub total : Value
  pub cancelled_count : Value
  pub results : Option (List GrpcCancelResult)
  pub notice : Option Notice

pub record ListOrdersPayload : Type 0 where
  pub chain_id : ℕ
  pub settlement_address : Option String
  pub maker : String
  pub statuses : List String
  pub limit : ℕ
  pub cursor : Option String

pub record GrpcListOrdersResponse : Type 0 where
  pub orders : Option (List GrpcLimitOrder)
  pub next_cursor : Option String
  pub has_more : Option Bool
  pub updates_cursor : Option String
  pub notice : Option Notice

pub record LimitOrderRecord : Type 0 where
  pub chain_id : ℕ
  pub settlement_address : String
  pub order_hash : String
  pub maker : String
  pub input_token : String
  pub output_token : String
  pub amount_in : String
  pub min_amount_out : String
  pub max_executor_reward_bps : String
  pub trigger_price_x18 : String
  pub expiry : String
  pub nonce : String
  pub recipient : String
  pub source : String
  pub status : String
  pub status_reason : String
  pub cancelled_tx_hash : String
  pub created_at : String
  pub updated_at : String

-- What the program sees of the service: whether executor.proto offers it, and its four calls.
pub record Executor : Type 0 where
  pub available : Bool
  pub create : CreateOrderPayload → Attempt GrpcCreateOrderResponse
  pub cancel : CancelOrdersPayload → Attempt GrpcCancelOrdersResponse
  pub list : ListOrdersPayload → Attempt GrpcListOrdersResponse
  pub list_updates : ListOrdersPayload → Attempt GrpcListOrdersResponse

-- `getExecutorClient()`, then the call.
unfoldable pub with_client : {A : Type 0} → Executor → Attempt A → Attempt A
with_client x call =
    if x.available then call else throw "Executor gRPC service is not available from executor.proto"

pub with_client-eq-ok :
    {A : Type 0} (x : Executor) (call : Attempt A) (r : A)
    → with_client x call ≡ ok r
    → (x.available ≡ true) × (call ≡ ok r)
unfolding with_client
with_client-eq-ok x call r h = elim (Bool-cases x.available) [
  | inl there ↦ (there, rw there at h)
  | inr gone ↦ cc (rw gone at h)
]

unfoldable pub create_order : Executor → CreateOrderPayload → Attempt GrpcCreateOrderResponse
unfolding with_client
create_order x payload = with_client x (x.create payload)

unfoldable pub cancel_orders : Executor → CancelOrdersPayload → Attempt GrpcCancelOrdersResponse
unfolding with_client
cancel_orders x payload = with_client x (x.cancel payload)

pub data View : Type 0 where
  orders_view updates_view : View

unfoldable pub list_orders : Executor → ListOrdersPayload → View → Attempt GrpcListOrdersResponse
unfolding with_client
list_orders x payload orders_view = with_client x (x.list payload)
list_orders x payload updates_view = with_client x (x.list_updates payload)

-- `NextResponse.json(body, { status })`
pub record Answer (B : Type 0) : Type 0 where
  pub status : ℕ
  pub body : B

-- `response.notice?.success === false ? 400 : 200`
abbrev pub status_of : Option Notice → ℕ
status_of none = 200
status_of (some n) = elim n.success [ some false ↦ 400 | _ ↦ 200 ]

abbrev pub message_of : Option String → String → String
message_of none fallback = fallback
message_of (some m) fallback = m

-- The notice of an answer that the route makes itself.
abbrev pub proxy_notice : String → String → String → Notice
proxy_notice code message hint = record {
  success = some false;
  code = some code;
  message = some message;
  hint = some hint;
  stage = some "frontend_api_proxy";
}

-- The hint of the answers that are not about creating an order.
abbrev pub backend_hint : String
backend_hint =
    "Please confirm the backend gRPC service is running and BACKEND_GRPC_URL is configured correctly."
