-- ===== src/Portfolio/Requests/Laws.antt =====
-- frontend/src/app/portfolio/page.tsx and frontend/src/app/api/orders/route.ts: the request of the page as
-- the route reads it.
use Prim.Native.String.{[] as empty_text, ◌∷◌ as char_cons}
use flux_swap_dex.Common.{
  ℕ, zero, suc, String, true, false, List, [], ◌∷◌, ◌++◌, Option, none, some, eq_refl, false, ◌≡◌,
  refl, ap, ◌∙◌, ◌≤◌, arith, Bool-cases, inl, inr,
}
use flux_swap_dex.Common.Int.{pos}
use flux_swap_dex.Common.Text.{trim, is_empty, trim_idem}
use flux_swap_dex.Common.BigInt.{nat_to_string}
use flux_swap_dex.Common.BigInt.RoundTrip.{trim-nat_to_string, is_empty-nat_to_string}
use flux_swap_dex.Api.Values.{whole, text, ok, Engine, to_number, positive_integer}
use flux_swap_dex.Api.Backend.{ListOrdersPayload, View, orders_view, updates_view}
use flux_swap_dex.Api.Orders.Payloads.{IsChainId}
use flux_swap_dex.Api.Orders.Query.{
  SearchParams, get, get_all, raw_statuses, trimmed_texts, trimmed_or_none, view_of,
  parse_positive_integer, normalize_list_orders_query,
}
use flux_swap_dex.Portfolio.Requests.Parts.{search_parts}
use flux_swap_dex.Portfolio.Requests.{
  FetchLimitOrdersParams, text_param, limit_param, view_param, status_params, or_empty,
  search_params,
}

is_empty-eq : (s : String) → is_empty s ≡ true → s ≡ ""
is_empty-eq empty_text h = refl
is_empty-eq (char_cons c s) h = cc

get-text_param :
    (name : String) (o : Option String)
    → trimmed_or_none (get (text_param name o) name) ≡ trimmed_or_none o
unfolding get text_param trimmed_or_none
get-text_param name none = refl
get-text_param name (some s) = elim (Bool-cases (is_empty s)) [
  | inl blank ↦ rw (blank, is_empty-eq s blank) refl
  | inr there ↦ rw (there, eq_refl name) refl
]

trimmed_texts-status_params :
    (ss : List String)
    → trimmed_texts (get_all (status_params ss) "status" ++ []) ≡ trimmed_texts ss
unfolding get_all status_params trimmed_texts
trimmed_texts-status_params [] = refl
trimmed_texts-status_params (s ∷ ss) = elim (Bool-cases (is_empty (trim s))) [
  | inl blank ↦ rw blank (trimmed_texts-status_params ss)
  | inr there ↦
      rw (there, trim_idem s, there) (ap (λ rest. trim s ∷ rest) (trimmed_texts-status_params ss))
]

abbrev pub view_or_orders : Option View → View
view_or_orders none = orders_view
view_or_orders (some view) = view

abbrev pub limit_or_100 : Option ℕ → ℕ
limit_or_100 none = 100
limit_or_100 (some zero) = 100
limit_or_100 (some (suc n)) = suc n

-- What the route reads from the request of the page.
abbrev pub payload_of : FetchLimitOrdersParams → ListOrdersPayload
payload_of p = record {
  chain_id = p.chain_id;
  settlement_address = trimmed_or_none p.settlement_address;
  maker = trim p.maker;
  statuses = trimmed_texts (or_empty p.statuses);
  limit = limit_or_100 p.limit;
  cursor = trimmed_or_none p.cursor;
}

IsChainId-le : (n : ℕ) → IsChainId n → n ≤ 9007199254740991
unfolding positive_integer
IsChainId-le zero h = cc
IsChainId-le (suc n) h = ground arith

module _ (e : Engine) where
  view_of-view_param :
      (o : Option View) (q : SearchParams)
      → get q "view" ≡ get (view_param o) "view"
      → view_of e q ≡ view_or_orders o
  unfolding view_of view_param get
  view_of-view_param none q same = rw (same, view_of) refl
  view_of-view_param (some orders_view) q same = rw (same, view_of) refl
  view_of-view_param (some updates_view) q same = rw (same, view_of) refl

  normalized :
      (q : SearchParams) (c l : ℕ) (m : String) (s k : Option String) (ss : List String) (v : View)
      → parse_positive_integer e (get q "chainId") "chainId" none ≡ ok c
      → trimmed_or_none (get q "maker") ≡ some m
      → parse_positive_integer e (get q "limit") "limit" (some 100) ≡ ok l
      → trimmed_or_none (get q "settlementAddress") ≡ s
      → trimmed_or_none (get q "cursor") ≡ k
      → trimmed_texts (raw_statuses q) ≡ ss
      → view_of e q ≡ v
      → normalize_list_orders_query e q
        ≡ ok (
          v,
          record {
            chain_id = c;
            settlement_address = s;
            maker = m;
            statuses = ss;
            limit = l;
            cursor = k;
          },
        )
  unfolding normalize_list_orders_query
  normalized q c l m s k ss v chain maker limit settlement cursor statuses view =
      rw (chain, maker, limit, settlement, cursor, statuses, view) refl

  module _
      (reads : (n : ℕ)
        → n ≤ 9007199254740991
        → e.number_of (text (nat_to_string n)) ≡ whole (pos n)) where
    parse-nat_to_string :
        (n : ℕ) (name : String) (fallback : Option ℕ)
        → IsChainId n
        → parse_positive_integer e (some (nat_to_string n)) name fallback ≡ ok n
    unfolding parse_positive_integer to_number
    parse-nat_to_string n name fallback safe =
        rw (trim-nat_to_string n, is_empty-nat_to_string n, reads n (IsChainId-le n safe), safe)
          refl

    parse-limit_param :
        (o : Option ℕ)
        → IsChainId (limit_or_100 o)
        → parse_positive_integer e (get (limit_param o) "limit") "limit" (some 100)
          ≡ ok (limit_or_100 o)
    unfolding limit_param get
    parse-limit_param none safe = unfold parse_positive_integer in refl
    parse-limit_param (some zero) safe = unfold parse_positive_integer in refl
    parse-limit_param (some (suc n)) safe = parse-nat_to_string (suc n) "limit" (some 100) safe

    -- Where `Number` reads the decimal digits of each safe integer, the chain id is positive and safe, the maker
    -- is not blank and the limit is 0, not there or positive and safe, the route reads from the request of the
    -- page the chain id, the trimmed maker, the trimmed statuses that are not blank, the trimmed settlement
    -- address and cursor where they are not blank, the view, and the limit, 100 where it is 0 or not there.
    pub normalize_list_orders_query-search_params :
        (p : FetchLimitOrdersParams)
        → IsChainId p.chain_id
        → is_empty (trim p.maker) ≡ false
        → IsChainId (limit_or_100 p.limit)
        → normalize_list_orders_query e (search_params p) ≡ ok (view_or_orders p.view, payload_of p)
    unfolding normalize_list_orders_query search_params
    normalize_list_orders_query-search_params p safe there limit_safe =
        let query = search_parts p in
        normalized (search_params p) p.chain_id (limit_or_100 p.limit) (trim p.maker)
          (trimmed_or_none p.settlement_address) (trimmed_or_none p.cursor)
          (trimmed_texts (or_empty p.statuses)) (view_or_orders p.view)
          (parse-nat_to_string p.chain_id "chainId" none safe)
          (unfold trimmed_or_none in rw there refl)
          (ap (λ o. parse_positive_integer e o "limit" (some 100)) query.limit
            ∙ parse-limit_param p.limit limit_safe)
          (ap trimmed_or_none query.settlement
            ∙ get-text_param "settlementAddress" p.settlement_address)
          (ap trimmed_or_none query.cursor ∙ get-text_param "cursor" p.cursor)
          (ap trimmed_texts query.statuses ∙ trimmed_texts-status_params (or_empty p.statuses))
          (view_of-view_param p.view (search_params p) query.view)
