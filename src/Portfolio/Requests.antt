-- ===== src/Portfolio/Requests.antt =====
-- frontend/src/app/portfolio/page.tsx: the request for a page of the listing, and its answer.
pub mod Parts
pub mod Laws
use Prim.Native.String.{◌++◌}
use flux_swap_dex.Common.{
  ℕ, zero, suc, String, Bool, true, false, List, [], ◌∷◌, Option, none, some, if◌then◌else◌, not,
  ◌||◌,
}
use mathlib.Core.List.{◌++◌ as append}
use flux_swap_dex.Common.BigInt.{nat_to_string}
use flux_swap_dex.Common.Text.{trim, is_empty}
use flux_swap_dex.LocalOrders.{LocalLimitOrderRecord}
use flux_swap_dex.Api.Values.{Attempt, ok, ◌>>=◌, throw, or_else}
use flux_swap_dex.Api.Backend.{Notice, View, orders_view, updates_view}
use flux_swap_dex.Api.Orders.Query.{SearchParams}

pub record FetchLimitOrdersParams : Type 0 where
  pub chain_id : ℕ
  pub maker : String
  pub settlement_address : Option String
  pub statuses : Option (List String)
  pub limit : Option ℕ
  pub cursor : Option String
  pub view : Option View

pub record LimitOrdersApiResponse : Type 0 where
  pub orders : Option (List LocalLimitOrderRecord)
  pub next_cursor : Option String
  pub has_more : Option Bool
  pub updates_cursor : Option String
  pub notice : Option Notice

-- What `fetch` gives: `response.ok` and the body, `none` where it is no JSON or `null`.
pub record LimitOrdersResponse : Type 0 where
  pub is_ok : Bool
  pub payload : Option LimitOrdersApiResponse

pub record LimitOrdersPage : Type 0 where
  pub orders : List LocalLimitOrderRecord
  pub next_cursor : String
  pub has_more : Bool
  pub updates_cursor : String

-- `if (value) { searchParams.set(name, value); }`, for a name that is not there yet.
unfoldable pub text_param : String → Option String → SearchParams
text_param name none = []
text_param name (some s) = if is_empty s then [] else (name, s) ∷ []

unfoldable pub limit_param : Option ℕ → SearchParams
unfolding nat_to_string
limit_param none = []
limit_param (some zero) = []
limit_param (some (suc n)) = ("limit", nat_to_string (suc n)) ∷ []

unfoldable pub view_param : Option View → SearchParams
view_param (some updates_view) = ("view", "updates") ∷ []
view_param _ = []

unfoldable pub status_params : List String → SearchParams
unfolding trim
status_params [] = []
status_params (s ∷ rest) =
    if is_empty (trim s) then status_params rest else ("status", trim s) ∷ status_params rest

abbrev pub or_empty {ℓ} : {A : Type ℓ} → Option (List A) → List A
or_empty none = []
or_empty (some xs) = xs

unfoldable pub search_params : FetchLimitOrdersParams → SearchParams
unfolding text_param limit_param view_param status_params nat_to_string
search_params p =
    ("chainId", nat_to_string p.chain_id)
    ∷ ("maker", p.maker)
    ∷ append (text_param "settlementAddress" p.settlement_address) (
        append (limit_param p.limit) (
          append (text_param "cursor" p.cursor)
            (append (view_param p.view) (status_params (or_empty p.statuses)))))

abbrev notice_of : Option LimitOrdersApiResponse → Option Notice
notice_of none = none
notice_of (some payload) = payload.notice

-- `notice?.success === false`
unfoldable pub says_failure : Option Notice → Bool
says_failure none = false
says_failure (some notice) = elim notice.success [ none ↦ false | some s ↦ not s ]

unfoldable pub failure_text : Option Notice → String → String
failure_text none fallback = fallback
failure_text (some notice) fallback =
    let message = or_else notice.message fallback in
    elim notice.hint [
      | none ↦ message
      | some hint ↦ if is_empty hint then message else message ++ (": " ++ hint)
    ]

unfoldable pub page_of : Option LimitOrdersApiResponse → LimitOrdersPage
page_of none = record { orders = []; next_cursor = ""; has_more = false; updates_cursor = "" }
page_of (some payload) = record {
  orders = or_empty payload.orders;
  next_cursor = or_else payload.next_cursor "";
  has_more = elim payload.has_more [ none ↦ false | some more ↦ more ];
  updates_cursor = or_else payload.updates_cursor "";
}

-- `fetch` is the browser's, given here by what it answers to the parameters of the request.
unfoldable pub fetch_limit_orders_page :
    (SearchParams → Attempt LimitOrdersResponse) → FetchLimitOrdersParams → Attempt LimitOrdersPage
unfolding search_params says_failure failure_text page_of
fetch_limit_orders_page fetch params = do
  response ← fetch (search_params params)
  if not response.is_ok || says_failure (notice_of response.payload)
      then throw (failure_text (notice_of response.payload) "Failed to load limit orders")
      else ok (page_of response.payload)
