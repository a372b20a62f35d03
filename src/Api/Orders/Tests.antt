-- ===== src/Api/Orders/Tests.antt =====
-- The orders route on concrete requests.
use flux_swap_dex.Common.{
  String, true, [], ◌∷◌, Option, none, some, str_eq, if◌then◌else◌, ◌≡◌, ◌≢◌, refl, arith, All,
  length,
}
use flux_swap_dex.Common.Int.{ℤ, pos}
use flux_swap_dex.Common.BigInt.{parse_big_int}
use flux_swap_dex.Common.Text.{trim}
use flux_swap_dex.Api.Values.{
  Number, whole, other, Value, undefined, number, text, object, ok, throw, Engine, filled,
  positive_integer,
}
use flux_swap_dex.Api.Backend.{
  CreateOrderPayload, CancelOrdersPayload, ListOrdersPayload, GrpcCreateOrderResponse,
  GrpcLimitOrder, GrpcCancelOrdersResponse, GrpcListOrdersResponse, Executor, orders_view,
  status_of,
}
use flux_swap_dex.Api.Orders.{normalize_create_order_body, normalize_cancel_orders_body}
use flux_swap_dex.Api.Orders.Cancel.{
  IsCancel, cancel_body, cancel_field, normalize_cancel_orders_body-IsCancel,
  normalize_cancel_orders_body-body,
}
use flux_swap_dex.Api.Orders.Create.{
  IsOrder, create_order_body, create_order_field, normalize_create_order_body-IsOrder,
  normalize_create_order_body-body,
}
use flux_swap_dex.Api.Orders.Handlers.{or_list, post, delete, get_orders}
use flux_swap_dex.Api.Orders.Handlers.Laws.{post-answer, delete-answer, get_orders-IsUsable}
use flux_swap_dex.Api.Orders.Sources.{IsOrderOf, IsCancelOf}
use flux_swap_dex.Api.Orders.Query.{SearchParams, normalize_list_orders_query}
use flux_swap_dex.Api.Orders.Query.Laws.{IsQuery, normalize_list_orders_query-IsQuery}
use flux_swap_dex.Api.Orders.Records.{IsUsable}

abbrev number_or_nan : Option ℤ → Number
number_or_nan none = other "NaN"
number_or_nan (some n) = whole n

abbrev number_of_text : Value → Number
unfolding parse_big_int
number_of_text (text s) = number_or_nan (parse_big_int s)
number_of_text _ = other "NaN"

abbrev engine : Engine
engine = record { number_of = number_of_text; no_field = λ v name. "no field" }

abbrev limit_order : GrpcLimitOrder
limit_order = record {
  chain_id = text "31337";
  settlement_address = text "0x5";
  order_hash = text " 0xabc ";
  maker = text "0x1";
  input_token = text "0x2";
  output_token = text "0x3";
  amount_in = text "10";
  min_amount_out = undefined;
  max_executor_reward_bps = undefined;
  trigger_price_x18 = undefined;
  expiry = text "99";
  nonce = text "1";
  recipient = text "0x1";
  source = undefined;
  status = undefined;
  status_reason = undefined;
  cancelled_tx_hash = undefined;
  created_at = undefined;
  updated_at = undefined;
}

abbrev created_response : GrpcCreateOrderResponse
created_response = record { order = text "taken"; notice = none }

abbrev cancelled_response : GrpcCancelOrdersResponse
cancelled_response = record {
  total = text "1";
  cancelled_count = number (whole (pos 1));
  results = some [];
  notice = none;
}

abbrev listed_response : GrpcListOrdersResponse
listed_response = record {
  orders = some (limit_order ∷ record limit_order { order_hash = text " " } ∷ []);
  next_cursor = none;
  has_more = none;
  updates_cursor = none;
  notice = none;
}

abbrev executor : Executor
executor = record {
  available = true;
  create = λ p. ok created_response;
  cancel = λ p. ok cancelled_response;
  list = λ p. ok listed_response;
  list_updates = λ p. throw "no updates";
}

abbrev new_order : CreateOrderPayload
new_order = record {
  chain_id = 31337;
  settlement_address = "0x5";
  order_hash = "0xabc";
  maker = "0x1";
  input_token = "0x2";
  output_token = "0x3";
  amount_in = "10";
  min_amount_out = "9";
  max_executor_reward_bps = "30";
  trigger_price_x18 = "1";
  expiry = "99";
  nonce = "1";
  recipient = "0x1";
  signature = "0x7";
  source = "frontend";
}

new_order-IsOrder : IsOrder new_order
unfolding filled positive_integer trim
new_order-IsOrder = record {
  chain_id = refl;
  settlement_address = refl;
  order_hash = refl;
  maker = refl;
  input_token = refl;
  output_token = refl;
  amount_in = refl;
  min_amount_out = refl;
  max_executor_reward_bps = refl;
  trigger_price_x18 = refl;
  expiry = refl;
  nonce = refl;
  recipient = refl;
  signature = refl;
  source = refl;
}

normalize_create_order_body-body_example :
    normalize_create_order_body engine (create_order_body new_order) ≡ ok new_order
normalize_create_order_body-body_example =
    normalize_create_order_body-body engine new_order new_order-IsOrder

-- A body with white space, a chain id that is a text, and no source.
abbrev loose_field : String → Value
unfolding create_order_field
loose_field name =
    if str_eq name "maker"
    then text " 0x1 "
    else if str_eq name "chainId"
    then text "31337"
    else if str_eq name "source"
    then undefined
    else create_order_field new_order name

loose_body : normalize_create_order_body engine (object loose_field) ≡ ok new_order
unfolding normalize_create_order_body create_order_field trim number_of_text
loose_body = refl

normalize_create_order_body-IsOrder_example : IsOrder new_order
normalize_create_order_body-IsOrder_example =
    normalize_create_order_body-IsOrder engine (object loose_field) new_order loose_body

post_good : (post engine executor (ok (object loose_field))).status ≢ 500
unfolding post normalize_create_order_body create_order_field trim number_of_text
post_good h = omega (arith, h)

post-answer_example :
    (f : String → Value) × (p : CreateOrderPayload) × (r : GrpcCreateOrderResponse) × (ok
        (object loose_field)
      ≡ ok (object f))
    × IsOrderOf engine f p
    × IsOrder p
    × (true ≡ true)
    × (executor.create p ≡ ok r)
    × (post engine executor (ok (object loose_field)) ≡ record {
      status = status_of r.notice;
      body = record { order = r.order; notice = r.notice };
    })
post-answer_example = post-answer engine executor (ok (object loose_field)) post_good

abbrev cancellation : CancelOrdersPayload
cancellation = record {
  orders =
      record {
        chain_id = 31337;
        settlement_address = "0x5";
        order_hash = "0xabc";
        maker = "0x1";
        reason = "";
      }
      ∷ [];
  cancel_tx_hash = "0x9";
}

cancellation-IsCancel : IsCancel cancellation
unfolding filled positive_integer trim
cancellation-IsCancel = record {
  some_orders = λ h. cc;
  orders = (
    record {
      chain_id = refl;
      settlement_address = refl;
      order_hash = refl;
      maker = refl;
      reason = refl;
    },
    tt,
  );
  cancel_tx_hash = refl;
}

normalize_cancel_orders_body-IsCancel_example : IsCancel cancellation
normalize_cancel_orders_body-IsCancel_example =
    normalize_cancel_orders_body-IsCancel engine (cancel_body cancellation) cancellation
      (normalize_cancel_orders_body-body engine cancellation cancellation-IsCancel)

delete_good : (delete engine executor (ok (cancel_body cancellation))).status ≢ 500
unfolding delete normalize_cancel_orders_body cancel_field trim
delete_good h = omega (arith, h)

delete-answer_example :
    (f : String → Value) × (p : CancelOrdersPayload) × (r : GrpcCancelOrdersResponse) × (ok
        (cancel_body cancellation)
      ≡ ok (object f))
    × IsCancelOf engine f p
    × IsCancel p
    × (true ≡ true)
    × (executor.cancel p ≡ ok r)
    × ((delete engine executor (ok (cancel_body cancellation))).status ≡ status_of r.notice)
    × (length (delete engine executor (ok (cancel_body cancellation))).body.results
        ≡ length (or_list r.results))
delete-answer_example = delete-answer engine executor (ok (cancel_body cancellation)) delete_good

abbrev params : SearchParams
params =
    ("chainId", "31337") ∷ ("maker", " 0x1") ∷ ("statuses", "open, ,filled") ∷ ("cursor", " ") ∷ []

abbrev query : ListOrdersPayload
query = record {
  chain_id = 31337;
  settlement_address = none;
  maker = "0x1";
  statuses = "open" ∷ "filled" ∷ [];
  limit = 100;
  cursor = none;
}

params_read : normalize_list_orders_query engine params ≡ ok (orders_view, query)
unfolding normalize_list_orders_query number_of_text
params_read = refl

normalize_list_orders_query-IsQuery_example : IsQuery query
normalize_list_orders_query-IsQuery_example =
    normalize_list_orders_query-IsQuery engine params orders_view query params_read

-- The order without a hash is left out.
one_listed : length (get_orders engine executor params).body.orders ≡ 1
unfolding get_orders number_of_text
one_listed = refl

get_orders-IsUsable_example : All IsUsable (get_orders engine executor params).body.orders
get_orders-IsUsable_example = get_orders-IsUsable engine executor params
