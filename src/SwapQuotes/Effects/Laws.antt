-- ===== src/SwapQuotes/Effects/Laws.antt =====
-- frontend/src/components/SwapWidget.tsx: what the widget shows in every reached state.
use flux_swap_dex.Common.{
  ℕ, zero, suc, Bool, true, false, List, [], ◌∷◌, Option, none, some, ◌≡◌, refl, Option-cases, inl,
  inr, All,
}
use flux_swap_dex.Api.Values.{Attempt}
use flux_swap_dex.SwapQuotes.{RouteRequest, BackendRouteState}
use flux_swap_dex.SwapQuotes.Effects.{
  TradeInputs, trade_request, Run, Widget, idle, state_after, initial, cancel_latest, clean_up,
  run_effect, settle_runs, settle_response, Reached, started, changed, settled, seen, request_of,
  Shows,
}

abbrev IsCancelled : Run → Type 0
IsCancelled r = r.cancelled ≡ true

-- All runs but that of the latest inputs are cancelled.
abbrev Sound : Option RouteRequest → List Run → BackendRouteState → Bool → Type 0
Sound none rs shown has_cleanup = (shown ≡ idle) × (has_cleanup ≡ false) × All IsCancelled rs
Sound (some q) [] shown has_cleanup = ⊥
Sound (some q) (r ∷ rs) shown has_cleanup =
    (r.request ≡ q)
    × (r.cancelled ≡ false)
    × (has_cleanup ≡ true)
    × (shown ≡ seen r.outcome)
    × All IsCancelled rs

settle_runs-All :
    (n : ℕ) (outcome : Attempt BackendRouteState) (rs : List Run) (shown : BackendRouteState)
    → All IsCancelled rs
    → ((settle_runs n outcome rs shown).1 ≡ shown)
      × All IsCancelled (settle_runs n outcome rs shown).0
unfolding settle_runs
settle_runs-All n outcome [] shown all = (refl, tt)
settle_runs-All zero outcome (r ∷ rs) shown (gone, all) = elim (Option-cases r.outcome) [
  | inl unsettled ↦ rw (unsettled, gone) (refl, (refl, all))
  | inr (before, there) ↦ rw there (refl, (gone, all))
]
settle_runs-All (suc n) outcome (r ∷ rs) shown (gone, all) =
    let (same, rest) = settle_runs-All n outcome rs shown all in (same, (gone, rest))

settle_runs-Sound :
    (q : Option RouteRequest) (n : ℕ) (outcome : Attempt BackendRouteState) (rs : List Run)
    → (shown : BackendRouteState) (has_cleanup : Bool) → Sound q rs shown has_cleanup
    → Sound q (settle_runs n outcome rs shown).0 (settle_runs n outcome rs shown).1 has_cleanup
unfolding settle_runs
settle_runs-Sound none n outcome rs shown has_cleanup (at_idle, off, all) =
    let (same, rest) = settle_runs-All n outcome rs shown all in rw same (at_idle, off, rest)
settle_runs-Sound (some q) n outcome [] shown has_cleanup bad = absurd bad
settle_runs-Sound (some q) zero outcome (r ∷ rs) shown has_cleanup (asked, live, on, shows, all) =
    elim (Option-cases r.outcome) [
      | inl unsettled ↦ rw (unsettled, live) (asked, refl, on, refl, all)
      | inr (before, there) ↦ rw (there, settle_runs) (asked, live, on, shows, all)
    ]
settle_runs-Sound (some q) (suc n) outcome (r ∷ rs) shown has_cleanup
      (asked, live, on, shows, all) =
    let (same, rest) = settle_runs-All n outcome rs shown all in
    rw same (asked, live, on, shows, rest)

settled-Sound :
    (q : Option RouteRequest) (w : Widget) (n : ℕ) (outcome : Attempt BackendRouteState)
    → Sound q w.runs w.trade_route_state w.has_cleanup
    → Sound q
        (settle_response n outcome w).runs
        (settle_response n outcome w).trade_route_state
        (settle_response n outcome w).has_cleanup
unfolding settle_response
settled-Sound q w n outcome sound =
    settle_runs-Sound q n outcome w.runs w.trade_route_state w.has_cleanup sound

cancel_latest-All :
    (q : RouteRequest) (rs : List Run) (shown : BackendRouteState) (has_cleanup : Bool)
    → Sound (some q) rs shown has_cleanup
    → All IsCancelled (cancel_latest rs)
cancel_latest-All q [] shown has_cleanup bad = absurd bad
cancel_latest-All q (r ∷ rs) shown has_cleanup (asked, live, on, shows, all) = (refl, all)

has_cleanup_of :
    (q : RouteRequest) (rs : List Run) (shown : BackendRouteState) (has_cleanup : Bool)
    → Sound (some q) rs shown has_cleanup
    → has_cleanup ≡ true
has_cleanup_of q [] shown has_cleanup bad = absurd bad
has_cleanup_of q (r ∷ rs) shown has_cleanup (asked, live, on, shows, all) = on

clean_up-All :
    (q : Option RouteRequest) (w : Widget)
    → Sound q w.runs w.trade_route_state w.has_cleanup
    → All IsCancelled (clean_up w).runs
unfolding clean_up
clean_up-All none w (at_idle, off, all) = rw off all
clean_up-All (some q) w sound =
    rw (has_cleanup_of q w.runs w.trade_route_state w.has_cleanup sound)
      (cancel_latest-All q w.runs w.trade_route_state w.has_cleanup sound)

run_effect-Sound :
    (before : Option RouteRequest) (i : TradeInputs) (w : Widget)
    → Sound before w.runs w.trade_route_state w.has_cleanup
    → Sound
        (trade_request i)
        (run_effect i w).runs
        (run_effect i w).trade_route_state
        (run_effect i w).has_cleanup
unfolding run_effect
run_effect-Sound before i w sound =
    let all = clean_up-All before w sound in
    elim (Option-cases (trade_request i)) [
      | inl no_request ↦ rw (no_request, run_effect) (refl, refl, all)
      | inr (q, asks) ↦ rw (asks, run_effect) (refl, refl, refl, refl, all)
    ]

Reached-Sound :
    (i : Option TradeInputs) (w : Widget)
    → Reached i w
    → Sound (request_of i) w.runs w.trade_route_state w.has_cleanup
Reached-Sound _ _ started = unfold initial in (refl, refl, tt)
Reached-Sound _ _ (changed before w i reached) =
    run_effect-Sound (request_of before) i w (Reached-Sound before w reached)
Reached-Sound _ _ (settled i w n outcome reached) =
    settled-Sound (request_of i) w n outcome (Reached-Sound i w reached)

Shows-components :
    (q : Option RouteRequest) (runs : List Run) (shown : BackendRouteState) (has_cleanup : Bool)
    → Sound q runs shown has_cleanup
    → Shows q (record { trade_route_state = shown; runs = runs; has_cleanup = has_cleanup })
Shows-components none runs shown has_cleanup (at_idle, off, all) = at_idle
Shows-components (some q) [] shown has_cleanup bad = absurd bad
Shows-components (some q) (r ∷ rs) shown has_cleanup (asked, live, on, shows, all) =
    (r, rs, refl, asked, shows)

-- Whatever changes of the inputs and responses there have been, in any order, the widget shows the idle state
-- where the latest inputs ask for no route, and otherwise what the latest run has come to, which asked for
-- the route of the latest inputs: a response to earlier inputs never shows.
pub Reached-Shows : (i : Option TradeInputs) (w : Widget) → Reached i w → Shows (request_of i) w
Reached-Shows i w reached =
    Shows-components (request_of i) w.runs w.trade_route_state w.has_cleanup
      (Reached-Sound i w reached)

first_settles :
    (q : RouteRequest) (r : Run) (rs : List Run) (shown : BackendRouteState) (has_cleanup : Bool)
    → (outcome : Attempt BackendRouteState) → Sound (some q) (r ∷ rs) shown has_cleanup
    → r.outcome ≡ none
    → (settle_runs 0 outcome (r ∷ rs) shown).1 ≡ state_after outcome
unfolding settle_runs
first_settles q r rs shown has_cleanup outcome (asked, live, on, shows, all) unsettled =
    rw (unsettled, live) refl

-- Where the latest inputs ask for a route and its run has come to nothing yet, the response to it shows when
-- it comes, whatever has happened before.
pub settle_response-Reached :
    (i : TradeInputs) (w : Widget) (q : RouteRequest) (r : Run) (rs : List Run)
    → (outcome : Attempt BackendRouteState) → Reached (some i) w
    → trade_request i ≡ some q
    → w.runs ≡ r ∷ rs
    → r.outcome ≡ none
    → (settle_response 0 outcome w).trade_route_state ≡ state_after outcome
unfolding settle_response
settle_response-Reached i w q r rs outcome reached asks latest unsettled =
    let reached_sound = Reached-Sound (some i) w reached in
    let sound : Sound (some q) (r ∷ rs) w.trade_route_state w.has_cleanup =
      rw (asks, latest) at reached_sound in
    rw latest (first_settles q r rs w.trade_route_state w.has_cleanup outcome sound unsettled)
