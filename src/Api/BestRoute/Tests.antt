-- ===== src/Api/BestRoute/Tests.antt =====
-- The best-route query on a concrete body.
use flux_swap_dex.Common.{
  String, true, false, none, some, str_eq, if◌then◌else◌, ◌≡◌, ◌≢◌, refl, arith,
}
use flux_swap_dex.Common.Int.{pos}
use flux_swap_dex.Common.Text.{trim}
use flux_swap_dex.Api.Values.{
  whole, other, Value, undefined, number, text, object, ok, Engine, filled, positive_integer,
  safe_natural,
}
use flux_swap_dex.Api.Backend.{status_of}
use flux_swap_dex.Api.BestRoute.{
  exact_input, GetBestRoutePayload, GrpcGetBestRouteResponse, RouteExecutor,
  normalize_get_best_route_body, post_best_route,
}
use flux_swap_dex.Api.BestRoute.Sources.{IsRouteQueryOf}
use flux_swap_dex.Api.BestRoute.Laws.{IsRouteQuery, post_best_route-answer}

abbrev engine : Engine
engine = record { number_of = λ v. other "NaN"; no_field = λ v name. "no field" }

abbrev route_query : GetBestRoutePayload
route_query = record {
  chain_id = 31337;
  token_in = "0x1";
  token_out = "0x2";
  amount = "5";
  max_hops = 1;
  quote_type = exact_input;
}

-- A body that leaves the hops to the route.
abbrev sent : String → Value
sent name =
    if str_eq name "chainId"
    then number (whole (pos 31337))
    else if str_eq name "tokenIn"
    then text " 0x1"
    else if str_eq name "tokenOut"
    then text "0x2"
    else if str_eq name "amount"
    then text "5"
    else undefined

sent_read : normalize_get_best_route_body engine (object sent) ≡ ok route_query
unfolding normalize_get_best_route_body trim
sent_read = refl

route_query_complete : IsRouteQuery route_query
unfolding filled positive_integer safe_natural trim
route_query_complete = record {
  chain_id = refl;
  max_hops = refl;
  token_in = refl;
  token_out = refl;
  amount = refl;
}

abbrev response : GrpcGetBestRouteResponse
response = record {
  notice = none;
  selected_route = none;
  alternative_routes = none;
  execution = none;
  selection_reason = some "direct";
  used_gas_adjusted_ranking = some false;
  quote = none;
}

abbrev executor : RouteExecutor
executor = record { available = true; get_best_route = λ p. ok response }

sent_good : (post_best_route engine executor (ok (object sent))).status ≢ 500
unfolding post_best_route trim
sent_good h = omega (arith, h)

post_best_route-answer_example :
    (f : String → Value) × (p : GetBestRoutePayload) × (r : GrpcGetBestRouteResponse) × (ok
        (object sent)
      ≡ ok (object f))
    × IsRouteQueryOf engine f p
    × IsRouteQuery p
    × (true ≡ true)
    × (executor.get_best_route p ≡ ok r)
    × (post_best_route engine executor (ok (object sent))
        ≡ record { status = status_of r.notice; body = r })
post_best_route-answer_example = post_best_route-answer engine executor (ok (object sent)) sent_good
