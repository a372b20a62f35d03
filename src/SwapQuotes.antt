-- ===== src/SwapQuotes.antt =====
-- frontend/src/components/SwapWidget.tsx: the best route, asked of frontend/src/app/api/routes/best.
pub mod Paths
pub mod Requests
pub mod Effects
pub mod Tests
use Prim.Native.String.{◌++◌}
use flux_swap_dex.Common.{
  ℕ, String, Bool, true, false, List, [], ◌∷◌, Option, none, some, str_eq, if◌then◌else◌, not, ◌&&◌,
  ◌||◌, length, leb,
}
use flux_swap_dex.Common.Int.{ℤ, pos, leb_ℤ}
use flux_swap_dex.Common.BigInt.{to_string, parse_big_int}
use flux_swap_dex.Common.Text.{to_lower_case, is_empty}
use flux_swap_dex.Portfolio.Requests.{says_failure, failure_text}
use flux_swap_dex.Api.Values.{
  whole, Value, undefined, number, text, object, Attempt, ok, ◌>>=◌, throw, or_else,
}
use flux_swap_dex.Api.Backend.{Notice}
use flux_swap_dex.Api.BestRoute.{
  QuoteType, exact_input, exact_output, GrpcRouteView, Execution, GrpcGetBestRouteResponse,
}

-- The payload of `fetchBestRoute`; its amount is a `bigint`.
pub record RouteRequest : Type 0 where
  pub chain_id : ℕ
  pub token_in : String
  pub token_out : String
  pub amount : ℤ
  pub quote_type : QuoteType
  pub max_hops : Option ℕ

pub record BackendRouteState : Type 0 where
  pub did_fetch : Bool
  pub loading : Bool
  pub execution_path : Option (List String)
  pub display_path : Option (List String)
  pub amount_in : Option ℤ
  pub amount_out : Option ℤ
  pub error : Option String

abbrev pub zero_token_address : String
zero_token_address = "0x0000000000000000000000000000000000000000"

unfoldable pub are_addresses_equal : String → String → Bool
unfolding to_lower_case
are_addresses_equal left right =
    not (is_empty left) && not (is_empty right) && str_eq (to_lower_case left) (to_lower_case right)

-- The same length, and equal addresses at each place.
unfoldable pub every_equal : List String → List String → Bool
unfolding are_addresses_equal
every_equal [] [] = true
every_equal (l ∷ ls) (r ∷ rs) = are_addresses_equal l r && every_equal ls rs
every_equal _ _ = false

unfoldable pub are_route_paths_equal : Option (List String) → Option (List String) → Bool
unfolding every_equal
are_route_paths_equal none none = true
are_route_paths_equal (some left) (some right) = every_equal left right
are_route_paths_equal _ _ = false

abbrev same_bool : Bool → Bool → Bool
same_bool true b = b
same_bool false b = not b

abbrev same_text : Option String → Option String → Bool
same_text none none = true
same_text (some a) (some b) = str_eq a b
same_text _ _ = false

abbrev same_amount : Option ℤ → Option ℤ → Bool
same_amount none none = true
same_amount (some a) (some b) = leb_ℤ a b && leb_ℤ b a
same_amount _ _ = false

unfoldable pub is_same_route_state : BackendRouteState → BackendRouteState → Bool
unfolding are_route_paths_equal
is_same_route_state left right =
    same_bool left.did_fetch right.did_fetch
    && same_bool left.loading right.loading
    && same_text left.error right.error
    && same_amount left.amount_in right.amount_in
    && same_amount left.amount_out right.amount_out
    && are_route_paths_equal left.execution_path right.execution_path

-- `setRateRouteState((current) => …)` with what has been fetched
unfoldable pub next_rate_state : BackendRouteState → BackendRouteState → BackendRouteState
unfolding is_same_route_state
next_rate_state current next = if is_same_route_state current next then current else next

unfoldable pub all_real : List String → Bool
all_real [] = true
all_real (address ∷ rest) = not (str_eq address zero_token_address) && all_real rest

unfoldable pub is_meaningful_path : List String → Bool
unfolding all_real
is_meaningful_path path = leb 2 (length path) && all_real path

unfoldable pub parse_route_path : Option (List String) → Option (List String)
unfolding is_meaningful_path
parse_route_path none = none
parse_route_path (some path) =
    if not (leb 2 (length path)) then none else if is_meaningful_path path then some path else none

unfoldable pub parse_optional_big_int : Option String → Option ℤ
unfolding parse_big_int
parse_optional_big_int none = none
parse_optional_big_int (some s) = if is_empty s then none else parse_big_int s

abbrev pub quote_type_text : QuoteType → String
quote_type_text exact_input = "ROUTE_QUOTE_TYPE_EXACT_INPUT"
quote_type_text exact_output = "ROUTE_QUOTE_TYPE_EXACT_OUTPUT"

abbrev pub or_one : Option ℕ → ℕ
or_one none = 1
or_one (some n) = n

-- The fields of the body that is sent.
unfoldable pub request_field : RouteRequest → String → Value
unfolding to_string
request_field q name =
    if str_eq name "chainId"
    then number (whole (pos q.chain_id))
    else if str_eq name "tokenIn"
    then text q.token_in
    else if str_eq name "tokenOut"
    then text q.token_out
    else if str_eq name "amount"
    then text (to_string q.amount)
    else if str_eq name "quoteType"
    then text (quote_type_text q.quote_type)
    else if str_eq name "maxHops"
    then number (whole (pos (or_one q.max_hops)))
    else undefined

-- What `fetch` gives: `response.ok` and the body, `none` where it is no JSON or `null`.
pub record BestRouteResponse : Type 0 where
  pub is_ok : Bool
  pub result : Option GrpcGetBestRouteResponse

abbrev notice_of : Option GrpcGetBestRouteResponse → Option Notice
notice_of none = none
notice_of (some result) = result.notice

abbrev route_text : (GrpcRouteView → Option String) → Option GrpcRouteView → Option String
route_text part none = none
route_text part (some route) = part route

abbrev shown_path : Option GrpcRouteView → Option (List String)
shown_path none = none
shown_path (some route) = route.path_tokens

abbrev router_path_of : Option Execution → Option (List String)
router_path_of none = none
router_path_of (some execution) = execution.router_path

unfoldable pub quoted : GrpcGetBestRouteResponse → BackendRouteState
unfolding parse_route_path parse_optional_big_int
quoted result = record {
  did_fetch = true;
  loading = false;
  execution_path = parse_route_path (router_path_of result.execution);
  display_path = shown_path result.selected_route;
  amount_in = parse_optional_big_int (route_text (λ r. r.amount_in) result.selected_route);
  amount_out = parse_optional_big_int (route_text (λ r. r.amount_out) result.selected_route);
  error = none;
}

-- The state where there is a response and no result.
abbrev pub unquoted : BackendRouteState
unquoted = record {
  did_fetch = true;
  loading = false;
  execution_path = none;
  display_path = none;
  amount_in = none;
  amount_out = none;
  error = none;
}

-- `fetch` is the browser's, given here by what it answers to the body.
unfoldable pub fetch_best_route :
    (Value → Attempt BestRouteResponse) → RouteRequest → Attempt BackendRouteState
unfolding request_field says_failure failure_text quoted
fetch_best_route fetch q = do
  response ← fetch (object (request_field q))
  if not response.is_ok || says_failure (notice_of response.result)
      then throw (failure_text (notice_of response.result) "Get best route failed")
      else ok (elim response.result [ none ↦ unquoted | some result ↦ quoted result ])
