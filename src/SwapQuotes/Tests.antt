-- ===== src/SwapQuotes/Tests.antt =====
-- A trade whose amount is changed while the first quote is on its way.
use flux_swap_dex.Common.{
  arith, ◌≢◌, eq_iff, str_eq, false, String, true, false, [], ◌∷◌, none, some, ◌≡◌, refl, Option,
}
use flux_swap_dex.Common.Int.{ℤ, pos}
use flux_swap_dex.Common.Text.{trim}
use flux_swap_dex.Api.Values.{other, ok, Engine, positive_integer, safe_natural, filled}
use flux_swap_dex.Api.BestRoute.{
  Execution, exact_input, GrpcRouteView, GrpcGetBestRouteResponse, RouteExecutor,
}
use flux_swap_dex.Common.BigInt.{to_string}
use flux_swap_dex.SwapQuotes.{
  RouteRequest, BackendRouteState, fetch_best_route, parse_route_path, zero_token_address,
  is_same_route_state,
}
use flux_swap_dex.Portfolio.Requests.{says_failure}
use flux_swap_dex.SwapQuotes.Requests.{served, fetch_best_route-served}
use flux_swap_dex.SwapQuotes.Effects.Laws.{Reached-Shows, settle_response-Reached}
use flux_swap_dex.SwapQuotes.Effects.{
  pay, TradeInputs, Widget, waiting, initial, run_effect, settle_response, trade_request, Reached,
  started, changed, settled, Shows,
}

abbrev inputs_of : Option ℤ → TradeInputs
inputs_of amount = record {
  supported_chain = true;
  effective_chain_id = some 31337;
  pay_address = some "0xA";
  receive_address = some "0xB";
  input_mode = pay;
  parsed_pay_amount = amount;
  parsed_receive_amount = none;
}

abbrev request_at : ℤ → RouteRequest
request_at amount = record {
  chain_id = 31337;
  token_in = "0xA";
  token_out = "0xB";
  amount = amount;
  quote_type = exact_input;
  max_hops = some 1;
}

abbrev quote_at : ℤ → BackendRouteState
quote_at out = record {
  did_fetch = true;
  loading = false;
  execution_path = some ("0xA" ∷ "0xB" ∷ []);
  display_path = none;
  amount_in = some out;
  amount_out = some out;
  error = none;
}

-- The amount is 1, then 2; the quote of 1 comes.
abbrev one_late : Widget
one_late =
    settle_response 1 (ok (quote_at (pos 1)))
      (run_effect (inputs_of (some (pos 2))) (run_effect (inputs_of (some (pos 1))) initial))

late_ignored : one_late.trade_route_state ≡ waiting
unfolding settle_response run_effect initial
late_ignored = refl

one_late-Reached : Reached (some (inputs_of (some (pos 2)))) one_late
one_late-Reached = settled _ _ 1 (ok (quote_at (pos 1))) (
    changed _ _ (inputs_of (some (pos 2)))
      (changed none initial (inputs_of (some (pos 1))) started))

Reached-Shows_example : Shows (trade_request (inputs_of (some (pos 2)))) one_late
Reached-Shows_example = Reached-Shows (some (inputs_of (some (pos 2)))) one_late one_late-Reached

settle_response-Reached_example :
    (settle_response 0 (ok (quote_at (pos 2))) one_late).trade_route_state ≡ quote_at (pos 2)
settle_response-Reached_example =
    settle_response-Reached (inputs_of (some (pos 2))) one_late (request_at (pos 2))
      (record { request = request_at (pos 2); cancelled = false; outcome = none })
      (record {
        request = request_at (pos 1);
        cancelled = true;
        outcome = some (ok (quote_at (pos 1)));
      }
        ∷ [])
      (ok (quote_at (pos 2))) one_late-Reached (unfold trade_request in refl)
      (unfold settle_response in unfold run_effect in unfold initial in refl) refl

paths :
    (parse_route_path (some ("0xA" ∷ [])) ≡ none)
    × (parse_route_path (some ("0xA" ∷ zero_token_address ∷ [])) ≡ none)
    × (is_same_route_state
          (quote_at (pos 1))
          (record (quote_at (pos 1)) { execution_path = some ("0xa" ∷ "0xb" ∷ []) })
        ≡ true)
unfolding parse_route_path is_same_route_state
paths = (refl, refl, refl)

abbrev engine : Engine
engine = record { number_of = λ v. other "NaN"; no_field = λ v name. "no field" }

abbrev route : GrpcRouteView
route = record {
  path_tokens = some ("0xA" ∷ "0xB" ∷ []);
  execution_path = none;
  hops = some 1;
  is_direct = some true;
  is_multi_hop = some false;
  amount_in = some "5";
  amount_out = some "4";
  gas_estimate = none;
  gas_cost_in_input_token = none;
  gas_cost_in_output_token = none;
  gas_adjusted_amount_in = none;
  gas_adjusted_amount_out = none;
  ranking_metric = none;
}

abbrev an_execution : Execution
an_execution = record {
  router_path = some ("0xA" ∷ "0xB" ∷ []);
  is_multi_hop = none;
  strategy = none;
}

abbrev response : GrpcGetBestRouteResponse
response = record {
  notice = none;
  selected_route = some route;
  alternative_routes = none;
  execution = some an_execution;
  selection_reason = none;
  used_gas_adjusted_ranking = none;
  quote = none;
}

abbrev service : RouteExecutor
service = record { available = true; get_best_route = λ p. ok response }

unlike_zero : (s : String) → str_eq s zero_token_address ≡ false → s ≢ zero_token_address
unlike_zero s h same = cc ((eq_iff s zero_token_address).1 same, h)

fetch_best_route-served_example :
    fetch_best_route (served engine service) (request_at (pos 5))
    ≡ ok (record {
      did_fetch = true;
      loading = false;
      execution_path = some ("0xA" ∷ "0xB" ∷ []);
      display_path = some ("0xA" ∷ "0xB" ∷ []);
      amount_in = some (pos 5);
      amount_out = some (pos 4);
      error = none;
    })
fetch_best_route-served_example =
    fetch_best_route-served engine service (request_at (pos 5)) response route an_execution
      ("0xA" ∷ "0xB" ∷ []) (pos 5) (pos 4) (unfold positive_integer in refl)
      (unfold filled in unfold trim in refl) (unfold filled in unfold trim in refl)
      (unfold safe_natural in refl) refl refl (unfold says_failure in refl) refl
      (unfold to_string in refl) (unfold to_string in refl) refl refl (omega arith)
      (unlike_zero "0xA" refl, (unlike_zero "0xB" refl, tt))
