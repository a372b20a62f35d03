-- ===== src/Portfolio/Pages.antt =====
-- frontend/src/app/portfolio/page.tsx: the wallet's orders, read page by page, `fetchAllLimitOrders`.
use flux_swap_dex.Common.{
  ℕ, zero, suc, String, Bool, true, false, List, [], ◌∷◌, ◌++◌, Option, none, some, if◌then◌else◌,
  not, ◌&&◌, ◌≡◌,
}
use flux_swap_dex.Common.Int.{ℤ}
use flux_swap_dex.Common.Text.{is_empty}
use flux_swap_dex.LocalOrders.{LocalLimitOrderRecord}
use flux_swap_dex.Api.Values.{Attempt, ok, ◌>>=◌}
use flux_swap_dex.Api.Backend.{orders_view}
use flux_swap_dex.Api.Orders.Query.{SearchParams}
use flux_swap_dex.Portfolio.{merge_limit_orders}
use flux_swap_dex.Portfolio.Requests.{
  FetchLimitOrdersParams, LimitOrdersPage, LimitOrdersResponse, fetch_limit_orders_page,
}

abbrev pub limit_order_page_size : ℕ
limit_order_page_size = 100

abbrev pub limit_order_max_pages : ℕ
limit_order_max_pages = 10

-- `params.limit ?? LIMIT_ORDER_PAGE_SIZE`
abbrev or_page_size : Option ℕ → ℕ
or_page_size none = limit_order_page_size
or_page_size (some limit) = limit

unfoldable pub page_params : FetchLimitOrdersParams → String → FetchLimitOrdersParams
page_params params cursor = record params {
  limit = some (or_page_size params.limit);
  cursor = some cursor;
  view = some orders_view;
}

-- `page.hasMore && !!page.nextCursor`
abbrev pub goes_on : LimitOrdersPage → Bool
goes_on page = page.has_more && not (is_empty page.next_cursor)

-- `fetch n` is what the browser answers to the n-th request of the loop.
module _ (fetch : ℕ → SearchParams → Attempt LimitOrdersResponse)
    (params : FetchLimitOrdersParams) where
  unfoldable pub page_at : ℕ → String → Attempt LimitOrdersPage
  unfolding page_params fetch_limit_orders_page
  page_at n cursor = fetch_limit_orders_page (fetch n) (page_params params cursor)

  -- The loop, with the number of pages that it may still read.
  unfoldable pub read_pages :
      ℕ → ℕ → String → List LocalLimitOrderRecord → Attempt (List LocalLimitOrderRecord)
  unfolding page_at
  read_pages zero n cursor collected = ok collected
  read_pages (suc left) n cursor collected = do
    page ← page_at n cursor
    let all = collected ++ page.orders
    let rest = read_pages left (suc n) page.next_cursor all
    if goes_on page then rest else ok all

  unfoldable pub fetch_all_limit_orders :
      (String → String → ℤ) → Attempt (List LocalLimitOrderRecord)
  unfolding read_pages merge_limit_orders
  fetch_all_limit_orders locale_compare = do
    collected ← read_pages limit_order_max_pages 0 "" []
    ok (merge_limit_orders locale_compare (collected ∷ []))

  -- A listing of so many pages, from a request and its cursor on to the page that says it is the last,
  -- with all its orders.
  pub data Listing : ℕ → ℕ → String → List LocalLimitOrderRecord → Type 0 where
    last_page :
        (n : ℕ) (cursor : String) (page : LimitOrdersPage)
        → page_at n cursor ≡ ok page
        → goes_on page ≡ false
        → Listing 1 n cursor page.orders
    next_page :
        (n : ℕ) (cursor : String) (page : LimitOrdersPage) (count : ℕ)
        → (rest : List LocalLimitOrderRecord) → page_at n cursor ≡ ok page
        → goes_on page ≡ true
        → Listing count (suc n) page.next_cursor rest
        → Listing (suc count) n cursor (page.orders ++ rest)
