-- ===== src/SwapQuotes/Requests.antt =====
-- frontend/src/components/SwapWidget.tsx and frontend/src/app/api/routes/best/route.ts: a request for the
-- best route, through the route of the application to the service and back.
use flux_swap_dex.Common.{
  ℕ, Bool, true, false, Option, none, some, ◌&&◌, ◌≡◌, refl, arith, leb, String, List, [], ◌∷◌, ap,
  length, All, ◌≤◌, ◌≢◌, str_eq, eq_iff, Bool-cases, inl, inr,
}
use flux_swap_dex.Common.Int.{ℤ, pos}
use flux_swap_dex.Common.BigInt.{to_string}
use flux_swap_dex.Common.BigInt.RoundTrip.{
  trim-to_string, is_empty-to_string, parse_big_int-to_string,
}
use flux_swap_dex.Api.Values.{
  whole, Value, text, object, Attempt, ok, Engine, to_number, safe_natural, field, filled,
}
use flux_swap_dex.Api.Backend.{Notice, status_of}
use flux_swap_dex.Api.Orders.Payloads.{IsTrimmed, IsChainId}
use flux_swap_dex.Api.BestRoute.{
  QuoteType, exact_input, exact_output, GetBestRoutePayload, GrpcGetBestRouteResponse,
  GrpcRouteView, Execution, RouteExecutor, get_best_route, require_string, quote_type_of,
  normalize_get_best_route_body, routed_from, post_best_route,
}
use flux_swap_dex.Portfolio.Requests.{says_failure}
use flux_swap_dex.SwapQuotes.{
  all_real, is_meaningful_path, parse_route_path, parse_optional_big_int, RouteRequest,
  BestRouteResponse, request_field, quoted, fetch_best_route, or_one, quote_type_text,
}

-- The payload that the service is called with for a request.
abbrev pub payload_for : RouteRequest → GetBestRoutePayload
payload_for q = record {
  chain_id = q.chain_id;
  token_in = q.token_in;
  token_out = q.token_out;
  amount = to_string q.amount;
  max_hops = or_one q.max_hops;
  quote_type = q.quote_type;
}

to_string-IsTrimmed : (z : ℤ) → IsTrimmed (to_string z)
unfolding filled
to_string-IsTrimmed z = rw (trim-to_string z, is_empty-to_string z) refl

abbrev is_success : ℕ → Bool
is_success status = leb 200 status && leb status 299

status_of-success : (n : Option Notice) → says_failure n ≡ false → status_of n ≡ 200
unfolding says_failure
status_of-success none h = refl
status_of-success (some n) h = ground (arith, h)

all_real-true :
    (path : List String)
    → All (λ address. address ≢ "0x0000000000000000000000000000000000000000") path
    → all_real path ≡ true
unfolding all_real
all_real-true [] real = refl
all_real-true (address ∷ rest) (first, others) =
    elim (Bool-cases (str_eq address "0x0000000000000000000000000000000000000000")) [
      | inl same ↦ absurd (first ((eq_iff _ _).0 same))
      | inr other ↦ rw (other, all_real-true rest others) refl
    ]

parse_route_path-some :
    (path : List String)
    → 2 ≤ length path
    → All (λ address. address ≢ "0x0000000000000000000000000000000000000000") path
    → parse_route_path (some path) ≡ some path
unfolding parse_route_path is_meaningful_path
parse_route_path-some path long real =
    let enough : leb 2 (length path) ≡ true = ground arith in
    rw (enough, all_real-true path real) refl

parse_optional_big_int-to_string : (z : ℤ) → parse_optional_big_int (some (to_string z)) ≡ some z
unfolding parse_optional_big_int
parse_optional_big_int-to_string z = rw (is_empty-to_string z) (parse_big_int-to_string z)

quoted_lem :
    (r : GrpcGetBestRouteResponse) (route : GrpcRouteView) (execution : Execution)
    (path : List String) (amount_in amount_out : ℤ)
    → r.selected_route ≡ some route
    → route.amount_in ≡ some (to_string amount_in)
    → route.amount_out ≡ some (to_string amount_out)
    → r.execution ≡ some execution
    → execution.router_path ≡ some path
    → 2 ≤ length path
    → All (λ address. address ≢ "0x0000000000000000000000000000000000000000") path
    → quoted r ≡ record {
      did_fetch = true;
      loading = false;
      execution_path = some path;
      display_path = route.path_tokens;
      amount_in = some amount_in;
      amount_out = some amount_out;
      error = none;
    }
unfolding quoted
quoted_lem r route execution path amount_in amount_out selected paid received executed along long
      real =
    rw
      (
        selected,
        executed,
        paid,
        received,
        along,
        parse_route_path-some path long real,
        parse_optional_big_int-to_string amount_in,
        parse_optional_big_int-to_string amount_out,
      )
      refl

module _ (e : Engine) where
  quote_type_of-text : (t : QuoteType) → quote_type_of e (text (quote_type_text t)) ≡ t
  unfolding quote_type_of
  quote_type_of-text exact_input = refl
  quote_type_of-text exact_output = refl

  normalize-request_field :
      (q : RouteRequest)
      → IsChainId q.chain_id
      → IsTrimmed q.token_in
      → IsTrimmed q.token_out
      → safe_natural (whole (pos (or_one q.max_hops))) ≡ some (or_one q.max_hops)
      → normalize_get_best_route_body e (object (request_field q)) ≡ ok (payload_for q)
  unfolding normalize_get_best_route_body request_field require_string field to_number
  normalize-request_field q chain token_in token_out hops =
      rw
        (
          chain,
          hops,
          token_in,
          token_out,
          to_string-IsTrimmed q.amount,
          quote_type_of-text q.quote_type,
        )
        refl

  -- The answer of the route as the browser has it.
  unfoldable pub served : RouteExecutor → Value → Attempt BestRouteResponse
  unfolding post_best_route
  served x body =
      let answer = post_best_route e x (ok body) in
      ok (record { is_ok = is_success answer.status; result = some answer.body })

  served_ok :
      (x : RouteExecutor) (q : RouteRequest) (r : GrpcGetBestRouteResponse)
      → x.available ≡ true
      → x.get_best_route (payload_for q) ≡ ok r
      → normalize_get_best_route_body e (object (request_field q)) ≡ ok (payload_for q)
      → says_failure r.notice ≡ false
      → served x (object (request_field q)) ≡ ok (record { is_ok = true; result = some r })
  unfolding served post_best_route routed_from get_best_route
  served_ok x q r there answered accepted good =
      rw (accepted, there, answered, status_of-success r.notice good) refl

  -- A request for a positive safe chain id and trimmed tokens that are not blank, with a safe limit on the hops,
  -- reaches the service through the route unchanged; where the service is there, responds and does not say that it
  -- has failed, the widget's state is the fetched quote: where the response has a route with both amounts and an
  -- execution along two addresses or more, none of them the zero address, it holds that execution's path,
  -- the route's own path for display, and the amounts to pay and to receive as the numbers that they are the
  -- texts of, with no error and nothing loading.
  pub fetch_best_route-served :
      (x : RouteExecutor) (q : RouteRequest) (r : GrpcGetBestRouteResponse) (route : GrpcRouteView)
      (execution : Execution) (path : List String) (amount_in amount_out : ℤ)
      → IsChainId q.chain_id
      → IsTrimmed q.token_in
      → IsTrimmed q.token_out
      → safe_natural (whole (pos (or_one q.max_hops))) ≡ some (or_one q.max_hops)
      → x.available ≡ true
      → x.get_best_route (payload_for q) ≡ ok r
      → says_failure r.notice ≡ false
      → r.selected_route ≡ some route
      → route.amount_in ≡ some (to_string amount_in)
      → route.amount_out ≡ some (to_string amount_out)
      → r.execution ≡ some execution
      → execution.router_path ≡ some path
      → 2 ≤ length path
      → All (λ address. address ≢ "0x0000000000000000000000000000000000000000") path
      → fetch_best_route (served x) q
        ≡ ok (record {
          did_fetch = true;
          loading = false;
          execution_path = some path;
          display_path = route.path_tokens;
          amount_in = some amount_in;
          amount_out = some amount_out;
          error = none;
        })
  unfolding fetch_best_route
  fetch_best_route-served x q r route execution path amount_in amount_out chain token_in token_out
        hops there answered good selected paid received executed along long real =
      rw
        (
          served_ok x q r there answered (normalize-request_field q chain token_in token_out hops)
              good,
          good,
        )
        (ap ok (
          quoted_lem r route execution path amount_in amount_out selected paid received executed
            along long real))
