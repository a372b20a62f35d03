-- ===== src/Portfolio/Tests.antt =====
-- The portfolio's orders on two pages that know of the same order.
use flux_swap_dex.Common.{
  ℕ, zero, suc, String, true, List, [], ◌∷◌, Option, none, some, str_eq, if◌then◌else◌, ◌≡◌, refl,
  ◌≤◌,
}
use flux_swap_dex.Common.Int.{ℤ, pos}
use flux_swap_dex.Common.BigInt.{nat_to_string, to_string, parse_big_int}
use flux_swap_dex.Common.BigInt.RoundTrip.{parse_big_int-to_string}
use flux_swap_dex.Common.Text.{trim}
use flux_swap_dex.LocalOrders.{LocalLimitOrderRecord}
use flux_swap_dex.Api.Values.{
  Number, whole, other, Value, text, Attempt, ok, Engine, positive_integer,
}
use flux_swap_dex.Api.Orders.Query.{SearchParams, normalize_list_orders_query}
use flux_swap_dex.Portfolio.{overlaid, merge_limit_orders, filter_wallet_limit_orders}
use flux_swap_dex.Portfolio.Requests.{
  FetchLimitOrdersParams, LimitOrdersPage, LimitOrdersResponse, search_params,
}
use flux_swap_dex.Portfolio.Requests.Laws.{
  view_or_orders, payload_of, normalize_list_orders_query-search_params,
}

abbrev known : LocalLimitOrderRecord
known = record {
  chain_id = 31337;
  settlement_address = "0xS";
  order_hash = "0xAA";
  maker = "0x1";
  input_token = "0x2";
  output_token = "0x3";
  amount_in = "10";
  min_amount_out = "9";
  max_executor_reward_bps = "30";
  trigger_price_x18 = "1";
  expiry = "99";
  nonce = "1";
  recipient = "0x1";
  source = "frontend";
  status = "open";
  status_reason = some "placed";
  cancelled_tx_hash = none;
  created_at = "then";
  updated_at = "then";
}

abbrev newer : LocalLimitOrderRecord
newer = record known { order_hash = "0xaa "; status = "done"; status_reason = none }

abbrev another : LocalLimitOrderRecord
another = record known { order_hash = "0xBB"; maker = "0x9"; created_at = "before" }

-- Texts that differ are in the order they are given.
abbrev plain_compare : String → String → ℤ
plain_compare a b = if str_eq a b then pos 0 else pos 1

merged_orders :
    merge_limit_orders plain_compare ((known ∷ another ∷ []) ∷ (newer ∷ []) ∷ [])
    ≡ another ∷ overlaid newer known ∷ []
unfolding merge_limit_orders
merged_orders = refl

wallet_orders :
    filter_wallet_limit_orders plain_compare (known ∷ another ∷ []) 31337 " 0x1" (some "0xs")
    ≡ known ∷ []
unfolding filter_wallet_limit_orders
wallet_orders = refl

abbrev wallet : FetchLimitOrdersParams
wallet = record {
  chain_id = 31337;
  maker = " 0x1";
  settlement_address = some "0xS";
  statuses = some ("open" ∷ " " ∷ []);
  limit = none;
  cursor = none;
  view = none;
}

abbrev response_of : List LocalLimitOrderRecord → String → LimitOrdersResponse
response_of orders next = record {
  is_ok = true;
  payload = some (record {
    orders = some orders;
    next_cursor = some next;
    has_more = some true;
    updates_cursor = none;
    notice = none;
  });
}

abbrev two_pages : ℕ → SearchParams → Attempt LimitOrdersResponse
two_pages zero q = ok (response_of (known ∷ another ∷ []) "c1")
two_pages (suc n) q = ok (response_of (newer ∷ []) "")

abbrev page : List LocalLimitOrderRecord → String → LimitOrdersPage
page orders next = record {
  orders = orders;
  next_cursor = next;
  has_more = true;
  updates_cursor = "";
}

abbrev number_read : Option ℤ → Number
number_read none = other "NaN"
number_read (some z) = whole z

abbrev number_of_text : Value → Number
number_of_text (text s) = number_read (parse_big_int s)
number_of_text v = other "NaN"

abbrev digits_engine : Engine
digits_engine = record { number_of = number_of_text; no_field = λ v name. "no field" }

digits_read :
    (n : ℕ) → n ≤ 9007199254740991 → number_of_text (text (nat_to_string n)) ≡ whole (pos n)
unfolding to_string
digits_read n small =
    let same : parse_big_int (nat_to_string n) ≡ some (pos n) = parse_big_int-to_string (pos n) in
    rw same refl

normalize_list_orders_query-search_params_example :
    normalize_list_orders_query digits_engine (search_params wallet)
    ≡ ok (view_or_orders none, payload_of wallet)
normalize_list_orders_query-search_params_example =
    normalize_list_orders_query-search_params digits_engine digits_read wallet
      (unfold positive_integer in refl) (unfold trim in refl) (unfold positive_integer in refl)
