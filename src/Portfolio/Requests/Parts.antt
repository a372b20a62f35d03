-- ===== src/Portfolio/Requests/Parts.antt =====
-- frontend/src/app/portfolio/page.tsx: the names and values of the request, looked up.
use flux_swap_dex.Common.{
  ℕ, zero, suc, String, false, List, [], ◌∷◌, ◌++◌, Option, none, some, str_eq, false, ◌≡◌, refl,
  ap, ◌∙◌, Bool-cases, inl, inr,
}
use flux_swap_dex.Common.Text.{trim, is_empty}
use flux_swap_dex.Common.BigInt.{nat_to_string}
use flux_swap_dex.Api.Backend.{View, orders_view, updates_view}
use flux_swap_dex.Api.Orders.Query.{SearchParams, get, get_all, raw_statuses, split_all}
use flux_swap_dex.Portfolio.Requests.{
  FetchLimitOrdersParams, text_param, limit_param, view_param, status_params, or_empty,
  search_params,
}

-- The first value of a name, or of the same name in what follows.
abbrev or_later : Option String → Option String → Option String
or_later none later = later
or_later (some s) later = some s

or_none : (o : Option String) → or_later o none ≡ o
or_none none = refl
or_none (some s) = refl

get-append :
    (xs ys : SearchParams) (name : String)
    → get (xs ++ ys) name ≡ or_later (get xs name) (get ys name)
unfolding get
get-append [] ys name = refl
get-append ((key, value) ∷ xs) ys name = elim (Bool-cases (str_eq key name)) [
  | inl same ↦ rw same
  | inr other ↦ rw other (get-append xs ys name)
]

get_all-append :
    (xs ys : SearchParams) (name : String)
    → get_all (xs ++ ys) name ≡ get_all xs name ++ get_all ys name
unfolding get_all
get_all-append [] ys name = refl
get_all-append ((key, value) ∷ xs) ys name = elim (Bool-cases (str_eq key name)) [
  | inl same ↦ rw same (ap (λ rest. value ∷ rest) (get_all-append xs ys name))
  | inr other ↦ rw other (get_all-append xs ys name)
]

-- A part of the query that has one name only, if any.
abbrev IsOnly : String → SearchParams → Type 0
IsOnly name [] = Unit
IsOnly name ((key, value) ∷ rest) = (key ≡ name) × IsOnly name rest

get-IsOnly :
    (name other : String) (xs : SearchParams)
    → str_eq name other ≡ false
    → IsOnly name xs
    → (get xs other ≡ none) × (get_all xs other ≡ [])
unfolding get get_all
get-IsOnly name other [] unlike only = (refl, refl)
get-IsOnly name other ((key, value) ∷ xs) unlike (same, only) =
    let (a, b) = get-IsOnly name other xs unlike only in rw (same, unlike) (a, b)

text_param-IsOnly : (name : String) (o : Option String) → IsOnly name (text_param name o)
unfolding text_param
text_param-IsOnly name none = tt
text_param-IsOnly name (some s) = elim (Bool-cases (is_empty s)) [
  | inl blank ↦ rw blank tt
  | inr there ↦ rw there (refl, tt)
]

limit_param-IsOnly : (o : Option ℕ) → IsOnly "limit" (limit_param o)
unfolding limit_param
limit_param-IsOnly none = tt
limit_param-IsOnly (some zero) = tt
limit_param-IsOnly (some (suc n)) = (refl, tt)

view_param-IsOnly : (o : Option View) → IsOnly "view" (view_param o)
unfolding view_param
view_param-IsOnly none = tt
view_param-IsOnly (some orders_view) = tt
view_param-IsOnly (some updates_view) = (refl, tt)

status_params-IsOnly : (ss : List String) → IsOnly "status" (status_params ss)
unfolding status_params
status_params-IsOnly [] = tt
status_params-IsOnly (s ∷ ss) = elim (Bool-cases (is_empty (trim s))) [
  | inl blank ↦ rw blank (status_params-IsOnly ss)
  | inr there ↦ rw there (refl, status_params-IsOnly ss)
]

-- A query with two names in front and five parts of one name each.
module _ (chain maker : String) (settlement limit cursor view statuses : SearchParams)
    (settlement_only : IsOnly "settlementAddress" settlement) (limit_only : IsOnly "limit" limit)
    (cursor_only : IsOnly "cursor" cursor) (view_only : IsOnly "view" view)
    (statuses_only : IsOnly "status" statuses) where
  abbrev parts : SearchParams
  parts =
      ("chainId", chain)
      ∷ ("maker", maker)
      ∷ (settlement ++ (limit ++ (cursor ++ (view ++ statuses))))

  get-parts :
      (key : String)
      → str_eq "chainId" key ≡ false
      → str_eq "maker" key ≡ false
      → get parts key
        ≡ or_later (get settlement key) (
            or_later
              (get limit key)
              (or_later (get cursor key) (or_later (get view key) (get statuses key))))
  unfolding get
  get-parts key a b =
      rw
        (
          a,
          b,
          get-append settlement (limit ++ (cursor ++ (view ++ statuses))) key,
          get-append limit (cursor ++ (view ++ statuses)) key,
          get-append cursor (view ++ statuses) key,
          get-append view statuses key,
        )
        refl

  get_settlement : get parts "settlementAddress" ≡ get settlement "settlementAddress"
  get_settlement =
      get-parts "settlementAddress" refl refl
      ∙ rw
          (
            (get-IsOnly "limit" "settlementAddress" limit refl limit_only).0,
            (get-IsOnly "cursor" "settlementAddress" cursor refl cursor_only).0,
            (get-IsOnly "view" "settlementAddress" view refl view_only).0,
            (get-IsOnly "status" "settlementAddress" statuses refl statuses_only).0,
          )
          (or_none (get settlement "settlementAddress"))

  get_limit : get parts "limit" ≡ get limit "limit"
  get_limit =
      get-parts "limit" refl refl
      ∙ rw
          (
            (get-IsOnly "settlementAddress" "limit" settlement refl settlement_only).0,
            (get-IsOnly "cursor" "limit" cursor refl cursor_only).0,
            (get-IsOnly "view" "limit" view refl view_only).0,
            (get-IsOnly "status" "limit" statuses refl statuses_only).0,
          )
          (or_none (get limit "limit"))

  get_cursor : get parts "cursor" ≡ get cursor "cursor"
  get_cursor =
      get-parts "cursor" refl refl
      ∙ rw
          (
            (get-IsOnly "settlementAddress" "cursor" settlement refl settlement_only).0,
            (get-IsOnly "limit" "cursor" limit refl limit_only).0,
            (get-IsOnly "view" "cursor" view refl view_only).0,
            (get-IsOnly "status" "cursor" statuses refl statuses_only).0,
          )
          (or_none (get cursor "cursor"))

  get_view : get parts "view" ≡ get view "view"
  get_view =
      get-parts "view" refl refl
      ∙ rw
          (
            (get-IsOnly "settlementAddress" "view" settlement refl settlement_only).0,
            (get-IsOnly "limit" "view" limit refl limit_only).0,
            (get-IsOnly "cursor" "view" cursor refl cursor_only).0,
            (get-IsOnly "status" "view" statuses refl statuses_only).0,
          )
          (or_none (get view "view"))

  get_all-parts :
      (key : String)
      → str_eq "chainId" key ≡ false
      → str_eq "maker" key ≡ false
      → str_eq "settlementAddress" key ≡ false
      → str_eq "limit" key ≡ false
      → str_eq "cursor" key ≡ false
      → str_eq "view" key ≡ false
      → get_all parts key ≡ get_all statuses key
  unfolding get_all
  get_all-parts key a b c d f g =
      rw
        (
          a,
          b,
          get_all-append settlement (limit ++ (cursor ++ (view ++ statuses))) key,
          (get-IsOnly "settlementAddress" key settlement c settlement_only).1,
          get_all-append limit (cursor ++ (view ++ statuses)) key,
          (get-IsOnly "limit" key limit d limit_only).1,
          get_all-append cursor (view ++ statuses) key,
          (get-IsOnly "cursor" key cursor f cursor_only).1,
          get_all-append view statuses key,
          (get-IsOnly "view" key view g view_only).1,
        )
        refl

  raw_statuses-parts : raw_statuses parts ≡ get_all statuses "status" ++ []
  unfolding raw_statuses split_all
  raw_statuses-parts =
      rw
        (
          get_all-parts "status" refl refl refl refl refl refl,
          get_all-parts "statuses" refl refl refl refl refl refl,
          (get-IsOnly "status" "statuses" statuses refl statuses_only).1,
        )
        refl

-- What the names of the request have.
pub record SearchParts (p : FetchLimitOrdersParams) : Type 0 where
  pub settlement :
      get (search_params p) "settlementAddress"
      ≡ get (text_param "settlementAddress" p.settlement_address) "settlementAddress"
  pub limit : get (search_params p) "limit" ≡ get (limit_param p.limit) "limit"
  pub cursor : get (search_params p) "cursor" ≡ get (text_param "cursor" p.cursor) "cursor"
  pub view : get (search_params p) "view" ≡ get (view_param p.view) "view"
  pub statuses :
      raw_statuses (search_params p) ≡ get_all (status_params (or_empty p.statuses)) "status" ++ []

pub search_parts : (p : FetchLimitOrdersParams) → SearchParts p
unfolding search_params
search_parts p =
    let chain = nat_to_string p.chain_id in
    let s = text_param "settlementAddress" p.settlement_address in
    let l = limit_param p.limit in
    let c = text_param "cursor" p.cursor in
    let v = view_param p.view in
    let ss = status_params (or_empty p.statuses) in
    let s_only = text_param-IsOnly "settlementAddress" p.settlement_address in
    let l_only = limit_param-IsOnly p.limit in
    let c_only = text_param-IsOnly "cursor" p.cursor in
    let v_only = view_param-IsOnly p.view in
    let ss_only = status_params-IsOnly (or_empty p.statuses) in
    record {
      settlement = get_settlement chain p.maker s l c v ss s_only l_only c_only v_only ss_only;
      limit = get_limit chain p.maker s l c v ss s_only l_only c_only v_only ss_only;
      cursor = get_cursor chain p.maker s l c v ss s_only l_only c_only v_only ss_only;
      view = get_view chain p.maker s l c v ss s_only l_only c_only v_only ss_only;
      statuses = raw_statuses-parts chain p.maker s l c v ss s_only l_only c_only v_only ss_only;
    }
