-- ===== src/SwapQuotes/Effects.antt =====
-- frontend/src/components/SwapWidget.tsx: the effect that asks for the route of the trade, and the
-- responses, which may come in any order, also after the inputs have changed.
pub mod Laws
use flux_swap_dex.Common.{
  ℕ, zero, suc, String, Bool, true, false, List, [], ◌∷◌, Option, none, some, if◌then◌else◌, not,
  ◌≡◌, refl, Option-cases, inl, inr, All,
}
use flux_swap_dex.Common.Int.{ℤ, pos, leb_ℤ}
use flux_swap_dex.Common.Text.{is_empty}
use flux_swap_dex.Api.Values.{Attempt, ok, failed}
use flux_swap_dex.Api.BestRoute.{QuoteType, exact_input, exact_output}
use flux_swap_dex.SwapQuotes.{RouteRequest, BackendRouteState}

pub data InputMode : Type 0 where
  pay receive : InputMode

-- What the effect depends on.
pub record TradeInputs : Type 0 where
  pub supported_chain : Bool
  pub effective_chain_id : Option ℕ
  pub pay_address : Option String
  pub receive_address : Option String
  pub input_mode : InputMode
  pub parsed_pay_amount : Option ℤ
  pub parsed_receive_amount : Option ℤ

-- `!value` of an optional number, an optional text and an optional amount that is not positive.
abbrev filled_number : Option ℕ → Option ℕ
filled_number (some (suc n)) = some (suc n)
filled_number _ = none

abbrev filled_text : Option String → Option String
filled_text none = none
filled_text (some s) = if is_empty s then none else some s

abbrev positive_amount : Option ℤ → Option ℤ
positive_amount none = none
positive_amount (some z) = if leb_ℤ z (pos 0) then none else some z

unfoldable pub quote_amount : TradeInputs → Option ℤ
quote_amount i = elim i.input_mode [
  | pay ↦ positive_amount i.parsed_pay_amount
  | receive ↦ positive_amount i.parsed_receive_amount
]

abbrev quote_type_for : InputMode → QuoteType
quote_type_for pay = exact_input
quote_type_for receive = exact_output

-- The request that the effect makes, or `none` where it makes none.
unfoldable pub trade_request : TradeInputs → Option RouteRequest
unfolding quote_amount
trade_request i =
    if not i.supported_chain then none else elim (filled_number i.effective_chain_id) [
      | none ↦ none
      | some chain_id ↦ elim (filled_text i.pay_address) [
        | none ↦ none
        | some token_in ↦ elim (filled_text i.receive_address) [
          | none ↦ none
          | some token_out ↦ elim (quote_amount i) [
            | none ↦ none
            | some amount ↦ some (record {
              chain_id = chain_id;
              token_in = token_in;
              token_out = token_out;
              amount = amount;
              quote_type = quote_type_for i.input_mode;
              max_hops = some 1;
            })
          ]
        ]
      ]
    ]

-- A run of the effect: what it asked for, its flag `cancelled`, and the outcome once there is one.
pub record Run : Type 0 where
  pub request : RouteRequest
  pub cancelled : Bool
  pub outcome : Option (Attempt BackendRouteState)

-- The state shown, the runs from the latest back, and whether the last effect left a cleanup.
pub record Widget : Type 0 where
  pub trade_route_state : BackendRouteState
  pub runs : List Run
  pub has_cleanup : Bool

abbrev pub without_route : Bool → Bool → Option String → BackendRouteState
without_route did_fetch loading error = record {
  did_fetch = did_fetch;
  loading = loading;
  execution_path = none;
  display_path = none;
  amount_in = none;
  amount_out = none;
  error = error;
}

abbrev pub idle : BackendRouteState
idle = without_route false false none

abbrev pub waiting : BackendRouteState
waiting = without_route false true none

abbrev message_or : Option String → String
message_or none = "Get best route failed"
message_or (some message) = message

-- What the handlers of the promise set.
abbrev pub state_after : Attempt BackendRouteState → BackendRouteState
state_after (ok next) = next
state_after (failed error) = without_route true false (some (message_or error.message))

unfoldable pub initial : Widget
initial = record { trade_route_state = idle; runs = []; has_cleanup = false }

abbrev pub cancel_latest : List Run → List Run
cancel_latest [] = []
cancel_latest (r ∷ rs) = record r { cancelled = true } ∷ rs

unfoldable pub clean_up : Widget → Widget
clean_up w = if w.has_cleanup then record w { runs = cancel_latest w.runs } else w

-- The effect on new inputs, after the cleanup of the one before.
unfoldable pub run_effect : TradeInputs → Widget → Widget
unfolding trade_request clean_up
run_effect i w =
    let before = clean_up w in
    elim (trade_request i) [
      | none ↦ record before { trade_route_state = idle; has_cleanup = false }
      | some q ↦ record {
        trade_route_state = waiting;
        runs = record { request = q; cancelled = false; outcome = none } ∷ before.runs;
        has_cleanup = true;
      }
    ]

-- The promise of the n-th latest run settles, once: the runs, and the state shown.
unfoldable pub settle_runs :
    ℕ → Attempt BackendRouteState → List Run → BackendRouteState → List Run × BackendRouteState
settle_runs n outcome [] shown = ([], shown)
settle_runs zero outcome (r ∷ rs) shown = elim r.outcome [
  | some before ↦ (r ∷ rs, shown)
  | none ↦
      (record r { outcome = some outcome } ∷ rs, if r.cancelled then shown else state_after outcome)
]
settle_runs (suc n) outcome (r ∷ rs) shown =
    let (after, next) = settle_runs n outcome rs shown in (r ∷ after, next)

unfoldable pub settle_response : ℕ → Attempt BackendRouteState → Widget → Widget
unfolding settle_runs
settle_response n outcome w =
    let (after, next) = settle_runs n outcome w.runs w.trade_route_state in
    record w { runs = after; trade_route_state = next }

-- The widgets that effects and responses lead to, with the inputs of the latest effect.
pub data Reached : Option TradeInputs → Widget → Type 0 where
  started : Reached none initial
  changed :
      (before : Option TradeInputs) (w : Widget) (i : TradeInputs)
      → Reached before w
      → Reached (some i) (run_effect i w)
  settled :
      (i : Option TradeInputs) (w : Widget) (n : ℕ) (outcome : Attempt BackendRouteState)
      → Reached i w
      → Reached i (settle_response n outcome w)

abbrev pub seen : Option (Attempt BackendRouteState) → BackendRouteState
seen none = waiting
seen (some outcome) = state_after outcome

abbrev pub request_of : Option TradeInputs → Option RouteRequest
request_of none = none
request_of (some i) = trade_request i

-- What the widget shows where the latest inputs ask for no route, and where they ask for one: what the run
-- of that request has come to.
abbrev pub Shows : Option RouteRequest → Widget → Type 0
Shows none w = w.trade_route_state ≡ idle
Shows (some q) w =
    (r : Run) × (rs : List Run) × (w.runs ≡ r ∷ rs)
    × (r.request ≡ q)
    × (w.trade_route_state ≡ seen r.outcome)
