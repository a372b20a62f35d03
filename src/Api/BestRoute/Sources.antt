-- ===== src/Api/BestRoute/Sources.antt =====
-- Where the payload of the best-route query comes from: the fields of the body, one by one.
use flux_swap_dex.Common.{ℕ, String, str_eq, eq_iff, ◌≡◌, ◌≢◌, ◌∙◌, sym, ap, Bool-cases, inl, inr}
use flux_swap_dex.Common.Int.{pos}
use flux_swap_dex.Api.Values.{
  whole, Value, undefined, text, object, Attempt, ok, failed, >>=-eq-ok, Engine, to_number,
  positive_integer, safe_natural, field, filled, or_throw,
}
use flux_swap_dex.Api.Fields.{
  IsTextOf, filled-IsTextOf, positive_integer-whole, safe_natural-whole, field-object,
  positive_field-object,
}
use flux_swap_dex.Api.BestRoute.{
  QuoteType, exact_input, exact_output, GetBestRoutePayload, require_string, with_default,
  quote_type_of, normalize_get_best_route_body,
}
use flux_swap_dex.Api.Orders.Payloads.{or_throw-eq-ok}

-- The limit on the hops: the field's number, and 1 where it is left out.
abbrev pub IsHopsOf : Engine → Value → ℕ → Type 0
IsHopsOf e undefined n = n ≡ 1
IsHopsOf e v n = to_number e v ≡ whole (pos n)

-- The output is exact where the field says so, and the input in every other case.
abbrev pub IsQuoteTypeOf : Value → QuoteType → Type 0
IsQuoteTypeOf (text s) exact_output = s ≡ "ROUTE_QUOTE_TYPE_EXACT_OUTPUT"
IsQuoteTypeOf (text s) exact_input = s ≢ "ROUTE_QUOTE_TYPE_EXACT_OUTPUT"
IsQuoteTypeOf v exact_output = ⊥
IsQuoteTypeOf v exact_input = Unit

-- The query that an object says.
pub record IsRouteQueryOf (e : Engine) (f : String → Value) (p : GetBestRoutePayload) : Type 0 where
  pub chain_id : to_number e (f "chainId") ≡ whole (pos p.chain_id)
  pub max_hops : IsHopsOf e (f "maxHops") p.max_hops
  pub token_in : IsTextOf (f "tokenIn") p.token_in
  pub token_out : IsTextOf (f "tokenOut") p.token_out
  pub amount : IsTextOf (f "amount") p.amount
  pub quote_type : IsQuoteTypeOf (f "quoteType") p.quote_type

value_of : {A : Type 0} → A → Attempt A → A
value_of d (ok a) = a
value_of d (failed x) = d

ok_inj : {A : Type 0} {a b : A} → ok a ≡ ok b → a ≡ b
unfolding value_of
ok_inj {A} {a} h = ap (value_of a) h

module _ (e : Engine) where
  hops_of : (v : Value) (n : ℕ) → to_number e (with_default e v) ≡ whole (pos n) → IsHopsOf e v n
  unfolding to_number
  hops_of undefined n h = cc
  hops_of v n h = h

  quote_of : (v : Value) → IsQuoteTypeOf v (quote_type_of e v)
  unfolding quote_type_of
  quote_of (text s) = elim (Bool-cases (str_eq s "ROUTE_QUOTE_TYPE_EXACT_OUTPUT")) [
    | inl same ↦ rw same ((eq_iff s _).0 same)
    | inr unlike ↦
        rw unlike (λ same. cc ((eq_iff s "ROUTE_QUOTE_TYPE_EXACT_OUTPUT").1 same, unlike))
  ]
  quote_of v = tt

  module _ (body : Value) (f : String → Value) (same : body ≡ object f) where
    at_field : (name : String) (v : Value) → field e body name ≡ ok v → f name ≡ v
    at_field name v h = field-object e f v name (ap (λ b. field e b name) (sym same) ∙ h)

    text_read : (name s : String) → require_string e body name ≡ ok s → IsTextOf (f name) s
    unfolding require_string field
    text_read name s h =
        filled-IsTextOf (f name) s
          (or_throw-eq-ok (filled (f name)) _ s (ap (λ b. require_string e b name) (sym same) ∙ h))

    hops_read :
        (v : Value) (message : String) (n : ℕ)
        → field e body "maxHops" ≡ ok v
        → or_throw (safe_natural (to_number e (with_default e v))) message ≡ ok n
        → IsHopsOf e (f "maxHops") n
    hops_read v message n read checked = rw (at_field "maxHops" v read) (
        hops_of v n (
          safe_natural-whole (to_number e (with_default e v)) n
            (or_throw-eq-ok (safe_natural (to_number e (with_default e v))) message n checked)))

    quote_read :
        (v : Value)
        → field e body "quoteType" ≡ ok v
        → IsQuoteTypeOf (f "quoteType") (quote_type_of e v)
    quote_read v read = rw (at_field "quoteType" v read) (quote_of v)

  chain_read :
      (body chain : Value) (message : String) (n : ℕ)
      → field e body "chainId" ≡ ok chain
      → or_throw (positive_integer (to_number e chain)) message ≡ ok n
      → (f : String → Value) × (body ≡ object f) × (to_number e (f "chainId") ≡ whole (pos n))
  chain_read body chain message n read checked =
      let positive = or_throw-eq-ok (positive_integer (to_number e chain)) message n checked in
      let (f, same, at_name) = positive_field-object e body chain "chainId" n read positive in
      (f, same, ap (to_number e) at_name ∙ positive_integer-whole (to_number e chain) n positive)

  -- Every query that a body is made into is the one that the body, which is an object, says.
  pub normalize_get_best_route_body-IsRouteQueryOf :
      (body : Value) (p : GetBestRoutePayload)
      → normalize_get_best_route_body e body ≡ ok p
      → (f : String → Value) × (body ≡ object f) × IsRouteQueryOf e f p
  unfolding normalize_get_best_route_body
  normalize_get_best_route_body-IsRouteQueryOf body p h =
      let (chain, r0, h0) = >>=-eq-ok (field e body "chainId") _ h in
      let (hops, r1, h1) = >>=-eq-ok (field e body "maxHops") _ h0 in
      let (chain_id, r2, h2) = >>=-eq-ok (or_throw (positive_integer (to_number e chain)) _) _ h1 in
      let (max_hops, r3, h3) =
        >>=-eq-ok (or_throw (safe_natural (to_number e (with_default e hops))) _) _ h2 in
      let (token_in, r4, h4) = >>=-eq-ok (require_string e body "tokenIn") _ h3 in
      let (token_out, r5, h5) = >>=-eq-ok (require_string e body "tokenOut") _ h4 in
      let (amount, r6, h6) = >>=-eq-ok (require_string e body "amount") _ h5 in
      let (quote, r7, h7) = >>=-eq-ok (field e body "quoteType") _ h6 in
      let (f, same, numbered) = chain_read body chain _ chain_id r0 r2 in
      let result = ok_inj h7 in
      (
        f,
        same,
        rw (← result) (record {
          chain_id = numbered;
          max_hops = hops_read body f same hops _ max_hops r1 r3;
          token_in = text_read body f same "tokenIn" token_in r4;
          token_out = text_read body f same "tokenOut" token_out r5;
          amount = text_read body f same "amount" amount r6;
          quote_type = quote_read body f same quote r7;
        }),
      )
