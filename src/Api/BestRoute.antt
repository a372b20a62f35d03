-- ===== src/Api/BestRoute.antt =====
-- frontend/src/app/api/routes/best/route.ts: the best route for a swap, asked of the backend.
pub mod Sources
pub mod Laws
pub mod Tests
use Prim.Native.String.{◌++◌}
use flux_swap_dex.Common.{
  ℕ, String, Bool, true, false, List, Option, none, some, str_eq, if◌then◌else◌,
}
use flux_swap_dex.Common.Int.{pos}
use flux_swap_dex.Api.Values.{
  whole, Value, undefined, number, text, Failure, Attempt, ok, failed, ◌>>=◌, throw, Engine,
  to_number, positive_integer, safe_natural, field, filled, or_throw,
}
use flux_swap_dex.Api.Backend.{Notice, Answer, status_of, message_of, proxy_notice, backend_hint}

pub data QuoteType : Type 0 where
  exact_input exact_output : QuoteType

pub record GetBestRoutePayload : Type 0 where
  pub chain_id : ℕ
  pub token_in : String
  pub token_out : String
  pub amount : String
  pub max_hops : ℕ
  pub quote_type : QuoteType

pub record GrpcRouteView : Type 0 where
  pub path_tokens : Option (List String)
  pub execution_path : Option (List String)
  pub hops : Option ℕ
  pub is_direct : Option Bool
  pub is_multi_hop : Option Bool
  pub amount_in : Option String
  pub amount_out : Option String
  pub gas_estimate : Option String
  pub gas_cost_in_input_token : Option String
  pub gas_cost_in_output_token : Option String
  pub gas_adjusted_amount_in : Option String
  pub gas_adjusted_amount_out : Option String
  pub ranking_metric : Option String

pub record Execution : Type 0 where
  pub router_path : Option (List String)
  pub is_multi_hop : Option Bool
  pub strategy : Option String

pub record Quote : Type 0 where
  pub quote_type : Option String
  pub amount_in : Option String
  pub amount_out : Option String

pub record GrpcGetBestRouteResponse : Type 0 where
  pub notice : Option Notice
  pub selected_route : Option GrpcRouteView
  pub alternative_routes : Option (List GrpcRouteView)
  pub execution : Option Execution
  pub selection_reason : Option String
  pub used_gas_adjusted_ranking : Option Bool
  pub quote : Option Quote

-- What the program sees of the service here.
pub record RouteExecutor : Type 0 where
  pub available : Bool
  pub get_best_route : GetBestRoutePayload → Attempt GrpcGetBestRouteResponse

unfoldable pub get_best_route :
    RouteExecutor → GetBestRoutePayload → Attempt GrpcGetBestRouteResponse
get_best_route x payload =
    if x.available
    then x.get_best_route payload
    else throw "Executor gRPC service is not available from executor.proto"

-- The answer of the route when it fails: a notice only.
abbrev pub only_notice : Notice → GrpcGetBestRouteResponse
only_notice notice = record {
  notice = some notice;
  selected_route = none;
  alternative_routes = none;
  execution = none;
  selection_reason = none;
  used_gas_adjusted_ranking = none;
  quote = none;
}

module _ (e : Engine) where
  unfoldable pub require_string : Value → String → Attempt String
  unfolding field filled
  require_string payload name = do
    value ← field e payload name
    or_throw (filled value) (name ++ " is required")

  -- `payload.maxHops === undefined ? 1 : Number(payload.maxHops)`
  abbrev pub with_default : Value → Value
  with_default undefined = number (whole (pos 1))
  with_default v = v

  -- `payload.quoteType === "ROUTE_QUOTE_TYPE_EXACT_OUTPUT"`
  unfoldable pub quote_type_of : Value → QuoteType
  quote_type_of (text s) =
      if str_eq s "ROUTE_QUOTE_TYPE_EXACT_OUTPUT" then exact_output else exact_input
  quote_type_of _ = exact_input

  unfoldable pub normalize_get_best_route_body : Value → Attempt GetBestRoutePayload
  unfolding require_string field to_number positive_integer safe_natural quote_type_of
  normalize_get_best_route_body body = do
    chain ← field e body "chainId"
    hops ← field e body "maxHops"
    chain_id ← or_throw (positive_integer (to_number e chain)) "chainId must be a positive integer"
    max_hops ←
        or_throw (safe_natural (to_number e (with_default hops)))
          "maxHops must be a non-negative integer"
    token_in ← require_string body "tokenIn"
    token_out ← require_string body "tokenOut"
    amount ← require_string body "amount"
    quote ← field e body "quoteType"
    ok (record {
      chain_id = chain_id;
      token_in = token_in;
      token_out = token_out;
      amount = amount;
      max_hops = max_hops;
      quote_type = quote_type_of quote;
    })

  unfoldable pub routed_from : RouteExecutor → Attempt Value → Attempt GrpcGetBestRouteResponse
  unfolding normalize_get_best_route_body get_best_route
  routed_from x json = do
    body ← json
    payload ← normalize_get_best_route_body body
    get_best_route x payload

  abbrev pub answer_routed : Attempt GrpcGetBestRouteResponse → Answer GrpcGetBestRouteResponse
  answer_routed (ok r) = record { status = status_of r.notice; body = r }
  answer_routed (failed error) = record {
    status = 500;
    body = only_notice (
        proxy_notice "GET_BEST_ROUTE_PROXY_FAILED"
          (message_of error.message "Get best route request failed") backend_hint);
  }

  -- `POST`
  unfoldable pub post_best_route : RouteExecutor → Attempt Value → Answer GrpcGetBestRouteResponse
  unfolding routed_from
  post_best_route x json = answer_routed (routed_from x json)
