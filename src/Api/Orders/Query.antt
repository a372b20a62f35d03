-- ===== src/Api/Orders/Query.antt =====
-- frontend/src/app/api/orders/route.ts: the query of a listing, `normalizeListOrdersQuery`.
pub mod Laws
use Prim.Native.Char.{Char, code}
use Prim.Native.String.{[] as empty_text, ◌∷◌ as char_cons, ◌++◌}
use flux_swap_dex.Common.{
  ℕ, String, Bool, true, false, List, [], ◌∷◌, Option, none, some, str_eq, ◌==◌, if◌then◌else◌, ◌≡◌,
  refl, arith, Bool-cases, Option-cases, inl, inr, All,
}
use mathlib.Core.List.{◌++◌ as append}
use flux_swap_dex.Common.Text.{trim, is_empty, is_blank, trim_idem}
use flux_swap_dex.Api.Values.{
  Value, text, Attempt, ok, failed, ◌>>=◌, >>=-eq-ok, throw, Engine, to_number, positive_integer,
  filled, or_throw,
}
use flux_swap_dex.Api.Backend.{ListOrdersPayload, View, orders_view, updates_view}

-- `url.searchParams`: the names and values of the query, in order.
abbrev pub SearchParams : Type 0
SearchParams = List (String × String)

unfoldable pub get : SearchParams → String → Option String
get [] name = none
get ((key, value) ∷ rest) name = if str_eq key name then some value else get rest name

unfoldable pub get_all : SearchParams → String → List String
get_all [] name = []
get_all ((key, value) ∷ rest) name =
    if str_eq key name then value ∷ get_all rest name else get_all rest name

abbrev to_first : Char → List String → List String
to_first c [] = char_cons c empty_text ∷ []
to_first c (s ∷ rest) = char_cons c s ∷ rest

-- `value.split(',')`
unfoldable pub split_commas : String → List String
split_commas empty_text = empty_text ∷ []
split_commas (char_cons c s) =
    let rest = split_commas s in if code c == b',' then empty_text ∷ rest else to_first c rest

unfoldable pub split_all : List String → List String
unfolding split_commas
split_all [] = []
split_all (s ∷ rest) = append (split_commas s) (split_all rest)

unfoldable pub raw_statuses : SearchParams → List String
unfolding get_all split_all
raw_statuses params = append (get_all params "status") (split_all (get_all params "statuses"))

-- `.map((value) => value.trim()).filter(Boolean)`
unfoldable pub trimmed_texts : List String → List String
unfolding trim
trimmed_texts [] = []
trimmed_texts (s ∷ rest) =
    if is_empty (trim s) then trimmed_texts rest else trim s ∷ trimmed_texts rest

-- `value?.trim() || undefined`
unfoldable pub trimmed_or_none : Option String → Option String
unfolding trim
trimmed_or_none none = none
trimmed_or_none (some s) = if is_empty (trim s) then none else some (trim s)

module _ (e : Engine) where
  missing : String → Option ℕ → Attempt ℕ
  missing name (some fallback) = ok fallback
  missing name none = throw (name ++ " is required")

  unfoldable pub parse_positive_integer : Option String → String → Option ℕ → Attempt ℕ
  unfolding missing trim to_number positive_integer
  parse_positive_integer none name fallback = missing name fallback
  parse_positive_integer (some value) name fallback =
      if is_empty (trim value)
      then missing name fallback
      else or_throw (positive_integer (to_number e (text value)))
          (name ++ " must be a positive integer")

  unfoldable pub view_of : SearchParams → View
  unfolding get
  view_of params = elim (get params "view") [
    | none ↦ orders_view
    | some v ↦ if str_eq v "updates" then updates_view else orders_view
  ]

  unfoldable pub normalize_list_orders_query : SearchParams → Attempt (View × ListOrdersPayload)
  unfolding get raw_statuses trimmed_texts trimmed_or_none parse_positive_integer view_of
  normalize_list_orders_query params = do
    chain_id ← parse_positive_integer (get params "chainId") "chainId" none
    maker ← or_throw (trimmed_or_none (get params "maker")) "maker is required"
    limit ← parse_positive_integer (get params "limit") "limit" (some 100)
    ok (
      view_of params,
      record {
        chain_id = chain_id;
        settlement_address = trimmed_or_none (get params "settlementAddress");
        maker = maker;
        statuses = trimmed_texts (raw_statuses params);
        limit = limit;
        cursor = trimmed_or_none (get params "cursor");
      },
    )
