-- ===== src/Api/Orders/Handlers.antt =====
-- frontend/src/app/api/orders/route.ts: the handlers `GET`, `POST` and `DELETE`.
pub mod Laws
use flux_swap_dex.Common.{
  ℕ, String, Bool, true, false, List, [], ◌∷◌, Option, none, some, if◌then◌else◌, str_eq, map,
}
use flux_swap_dex.Common.Int.{pos}
use flux_swap_dex.Api.Values.{
  Number, whole, Value, undefined, null, Failure, Attempt, ok, failed, ◌>>=◌, Engine, to_number,
}
use flux_swap_dex.Api.Backend.{
  CreateOrderPayload, CancelOrderItemPayload, CancelOrdersPayload, ListOrdersPayload, Notice,
  GrpcCreateOrderResponse, GrpcLimitOrder, GrpcCancelResult, GrpcCancelOrdersResponse,
  GrpcListOrdersResponse, LimitOrderRecord, Executor, create_order, cancel_orders, list_orders,
  View, orders_view, updates_view, Answer, status_of, message_of, proxy_notice, backend_hint,
}
use flux_swap_dex.Api.Orders.{normalize_create_order_body, normalize_cancel_orders_body}
use flux_swap_dex.Api.Orders.Query.{SearchParams, view_of, normalize_list_orders_query}
use flux_swap_dex.Api.Orders.Records.{read_string, map_grpc_order_to_limit_order_record, map_orders}

unfoldable pub build_create_order_proxy_failure_notice : Failure → Notice
build_create_order_proxy_failure_notice error =
    if error.deadline_exceeded
    then proxy_notice "CREATE_ORDER_PROXY_FAILED" "后端处理请求超时。" "链上 RPC 响应较慢，请稍后重试。"
    else proxy_notice "CREATE_ORDER_PROXY_FAILED"
        (message_of error.message "Backend gRPC request failed")
        "请确认后端 gRPC 服务已启动，并且 BACKEND_GRPC_URL 配置正确。"

-- The body of an answer of `POST`.
pub record Created : Type 0 where
  pub order : Value
  pub notice : Option Notice

pub record CancelResult : Type 0 where
  pub chain_id : Number
  pub settlement_address : String
  pub order_hash : String
  pub cancelled : Bool
  pub error : String
  pub code : String
  pub message : String
  pub hint : String
  pub stage : String
  pub order : Option LimitOrderRecord

-- The body of an answer of `DELETE`.
pub record Cancelled : Type 0 where
  pub total : Number
  pub cancelled_count : Number
  pub results : List CancelResult
  pub notice : Option Notice

-- The body of an answer of `GET`.
pub record Listed : Type 0 where
  pub orders : List LimitOrderRecord
  pub next_cursor : String
  pub has_more : Bool
  pub updates_cursor : String
  pub notice : Option Notice

-- `value ?? fallback`
abbrev pub or_value : Value → Value → Value
or_value undefined fallback = fallback
or_value null fallback = fallback
or_value v fallback = v

abbrev pub or_flag : Option Bool → Bool
or_flag none = false
or_flag (some b) = b

abbrev pub or_list : {A : Type 0} → Option (List A) → List A
or_list none = []
or_list (some xs) = xs

abbrev pub first_chain_id : List CancelOrderItemPayload → ℕ
first_chain_id [] = 0
first_chain_id (p ∷ _) = p.chain_id

module _ (e : Engine) (x : Executor) where
  unfoldable pub answer_created : Attempt GrpcCreateOrderResponse → Answer Created
  unfolding build_create_order_proxy_failure_notice
  answer_created (ok r) = record {
    status = status_of r.notice;
    body = record { order = r.order; notice = r.notice };
  }
  answer_created (failed error) = record {
    status = 500;
    body = record {
      order = undefined;
      notice = some (build_create_order_proxy_failure_notice error);
    };
  }

  created_from : Attempt Value → Attempt GrpcCreateOrderResponse
  unfolding normalize_create_order_body create_order
  created_from json = do
    body ← json
    payload ← normalize_create_order_body e body
    create_order x payload

  -- `POST`; the argument is what comes of `request.json()`.
  unfoldable pub post : Attempt Value → Answer Created
  unfolding created_from answer_created
  post json = answer_created (created_from json)

  map_order : ℕ → Option GrpcLimitOrder → Option LimitOrderRecord
  unfolding map_grpc_order_to_limit_order_record
  map_order fallback none = none
  map_order fallback (some o) = map_grpc_order_to_limit_order_record e o fallback

  unfoldable pub map_result : ℕ → GrpcCancelResult → CancelResult
  unfolding map_order read_string to_number
  map_result fallback r = record {
    chain_id = to_number e (or_value r.chain_id (Value.number (whole (pos fallback))));
    settlement_address = read_string r.settlement_address "";
    order_hash = read_string r.order_hash "";
    cancelled = or_flag r.cancelled;
    error = read_string r.error "";
    code = read_string r.code "";
    message = read_string r.message "";
    hint = read_string r.hint "";
    stage = read_string r.stage "";
    order = map_order fallback r.order;
  }

  unfoldable pub cancel_answer : CancelOrdersPayload → GrpcCancelOrdersResponse → Answer Cancelled
  unfolding map_result to_number
  cancel_answer p r = record {
    status = status_of r.notice;
    body = record {
      total = to_number e (or_value r.total (Value.number (whole (pos 0))));
      cancelled_count = to_number e (or_value r.cancelled_count (Value.number (whole (pos 0))));
      results = map (map_result (first_chain_id p.orders)) (or_list r.results);
      notice = r.notice;
    };
  }

  unfoldable pub answer_cancelled :
      Attempt (CancelOrdersPayload × GrpcCancelOrdersResponse) → Answer Cancelled
  unfolding cancel_answer
  answer_cancelled (ok (p, r)) = cancel_answer p r
  answer_cancelled (failed error) = record {
    status = 500;
    body = record {
      total = whole (pos 0);
      cancelled_count = whole (pos 0);
      results = [];
      notice = some (
          proxy_notice "CANCEL_ORDERS_PROXY_FAILED"
            (message_of error.message "Cancel orders request failed") backend_hint);
    };
  }

  cancelled_from : Attempt Value → Attempt (CancelOrdersPayload × GrpcCancelOrdersResponse)
  unfolding normalize_cancel_orders_body cancel_orders
  cancelled_from json = do
    body ← json
    payload ← normalize_cancel_orders_body e body
    response ← cancel_orders x payload
    ok (payload, response)

  -- `DELETE`
  unfoldable pub delete : Attempt Value → Answer Cancelled
  unfolding cancelled_from answer_cancelled
  delete json = answer_cancelled (cancelled_from json)

  listing_code : View → String
  listing_code orders_view = "LIST_ORDERS_PROXY_FAILED"
  listing_code updates_view = "LIST_ORDER_UPDATES_PROXY_FAILED"

  unfoldable pub answer_listed :
      View → Attempt (ListOrdersPayload × GrpcListOrdersResponse) → Answer Listed
  unfolding map_orders listing_code
  answer_listed view (ok (p, r)) = record {
    status = status_of r.notice;
    body = record {
      orders = map_orders e (or_list r.orders) p.chain_id;
      next_cursor = message_of r.next_cursor "";
      has_more = or_flag r.has_more;
      updates_cursor = message_of r.updates_cursor "";
      notice = r.notice;
    };
  }
  answer_listed view (failed error) = record {
    status = 500;
    body = record {
      orders = [];
      next_cursor = "";
      has_more = false;
      updates_cursor = "";
      notice = some (
          proxy_notice (listing_code view) (message_of error.message "List orders request failed")
            backend_hint);
    };
  }

  listed_from : SearchParams → Attempt (ListOrdersPayload × GrpcListOrdersResponse)
  unfolding normalize_list_orders_query list_orders
  listed_from params = do
    query ← normalize_list_orders_query e params
    response ← list_orders x query.1 query.0
    ok (query.1, response)

  -- `GET`
  unfoldable pub get_orders : SearchParams → Answer Listed
  unfolding view_of listed_from answer_listed
  get_orders params = answer_listed (view_of e params) (listed_from params)
