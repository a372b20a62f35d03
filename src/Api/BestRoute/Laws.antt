-- ===== src/Api/BestRoute/Laws.antt =====
-- The payloads of the best-route query, and what its answers show.
use flux_swap_dex.Common.{
  ℕ, String, true, some, str_eq, if◌then◌else◌, ◌≡◌, ◌≢◌, ◌∙◌, refl, ap, arith, Bool-cases, inl,
  inr, ◌⊎◌,
}
use flux_swap_dex.Common.Int.{pos}
use flux_swap_dex.Api.Values.{
  Number, whole, Value, undefined, number, text, object, Failure, Attempt, ok, failed, >>=-eq-ok,
  Engine, to_number, positive_integer, safe_natural, field, filled, or_throw,
}
use flux_swap_dex.Api.Backend.{status_of}
use flux_swap_dex.Api.BestRoute.Sources.{
  IsRouteQueryOf, normalize_get_best_route_body-IsRouteQueryOf,
}
use flux_swap_dex.Api.BestRoute.{
  QuoteType, exact_input, exact_output, GetBestRoutePayload, GrpcGetBestRouteResponse,
  RouteExecutor, get_best_route, require_string, with_default, quote_type_of,
  normalize_get_best_route_body, routed_from, post_best_route,
}
use flux_swap_dex.Api.Orders.Payloads.{
  IsTrimmed, IsChainId, filled-IsTrimmed, positive_integer-IsChainId, or_throw-eq-ok,
}

-- A complete query.
pub record IsRouteQuery (p : GetBestRoutePayload) : Type 0 where
  pub chain_id : IsChainId p.chain_id
  pub max_hops : safe_natural (whole (pos p.max_hops)) ≡ some p.max_hops
  pub token_in : IsTrimmed p.token_in
  pub token_out : IsTrimmed p.token_out
  pub amount : IsTrimmed p.amount

abbrev pub quote_text : QuoteType → String
quote_text exact_input = "ROUTE_QUOTE_TYPE_EXACT_INPUT"
quote_text exact_output = "ROUTE_QUOTE_TYPE_EXACT_OUTPUT"

-- The payload as the browser would send it.
unfoldable pub route_field : GetBestRoutePayload → String → Value
route_field p name =
    if str_eq name "chainId"
    then number (whole (pos p.chain_id))
    else if str_eq name "maxHops"
    then number (whole (pos p.max_hops))
    else if str_eq name "tokenIn"
    then text p.token_in
    else if str_eq name "tokenOut"
    then text p.token_out
    else if str_eq name "amount"
    then text p.amount
    else if str_eq name "quoteType"
    then text (quote_text p.quote_type)
    else undefined

safe_natural-kept :
    (x : Number) (n : ℕ) → safe_natural x ≡ some n → safe_natural (whole (pos n)) ≡ some n
unfolding safe_natural
safe_natural-kept (whole (pos k)) n h = ground arith
safe_natural-kept x n h = cc

value_of : {A : Type 0} → A → Attempt A → A
value_of d (ok a) = a
value_of d (failed x) = d

ok_inj : {A : Type 0} {a b : A} → ok a ≡ ok b → a ≡ b
unfolding value_of
ok_inj {A} {a} h = ap (value_of a) h

attempted : {A : Type 0} (m : Attempt A) → ((a : A) × (m ≡ ok a)) ⊎ ((f : Failure) × (m ≡ failed f))
attempted (ok a) = inl (a, refl)
attempted (failed f) = inr (f, refl)

module _ (e : Engine) where
  text_of : (v : Value) (name s : String) → require_string e v name ≡ ok s → IsTrimmed s
  unfolding require_string
  text_of v name s h =
      let (value, read, checked) = >>=-eq-ok (field e v name) _ h in
      filled-IsTrimmed value s (or_throw-eq-ok (filled value) _ s checked)

  -- Every query that the body of a request is made into has a positive safe chain id, a safe limit on the
  -- hops that is not negative, and tokens and an amount that are trimmed and not blank.
  pub normalize_get_best_route_body-IsRouteQuery :
      (body : Value) (p : GetBestRoutePayload)
      → normalize_get_best_route_body e body ≡ ok p
      → IsRouteQuery p
  unfolding normalize_get_best_route_body
  normalize_get_best_route_body-IsRouteQuery body p h =
      let (chain, r0, h0) = >>=-eq-ok (field e body "chainId") _ h in
      let (hops, r1, h1) = >>=-eq-ok (field e body "maxHops") _ h0 in
      let (chain_id, r2, h2) = >>=-eq-ok (or_throw (positive_integer (to_number e chain)) _) _ h1 in
      let (max_hops, r3, h3) =
        >>=-eq-ok (or_throw (safe_natural (to_number e (with_default e hops))) _) _ h2 in
      let (token_in, r4, h4) = >>=-eq-ok (require_string e body "tokenIn") _ h3 in
      let (token_out, r5, h5) = >>=-eq-ok (require_string e body "tokenOut") _ h4 in
      let (amount, r6, h6) = >>=-eq-ok (require_string e body "amount") _ h5 in
      let (quote, r7, h7) = >>=-eq-ok (field e body "quoteType") _ h6 in
      rw (← ok_inj h7) (record {
        chain_id =
            positive_integer-IsChainId (to_number e chain) chain_id
              (or_throw-eq-ok (positive_integer (to_number e chain)) _ chain_id r2);
        max_hops =
            safe_natural-kept (to_number e (with_default e hops)) max_hops
              (or_throw-eq-ok (safe_natural (to_number e (with_default e hops))) _ max_hops r3);
        token_in = text_of body _ token_in r4;
        token_out = text_of body _ token_out r5;
        amount = text_of body _ amount r6;
      })

  quote_kept : (q : QuoteType) → quote_type_of e (text (quote_text q)) ≡ q
  unfolding quote_type_of
  quote_kept exact_input = refl
  quote_kept exact_output = refl

  -- A complete query that is sent as a body is not changed.
  pub normalize_get_best_route_body-body :
      (p : GetBestRoutePayload)
      → IsRouteQuery p
      → normalize_get_best_route_body e (object (route_field p)) ≡ ok p
  unfolding normalize_get_best_route_body route_field require_string field to_number
  normalize_get_best_route_body-body p h =
      rw (h.chain_id, h.max_hops, h.token_in, h.token_out, h.amount, quote_kept p.quote_type)

  routed_from-eq-ok :
      (x : RouteExecutor) (json : Attempt Value) (r : GrpcGetBestRouteResponse)
      → routed_from e x json ≡ ok r
      → (f : String → Value) × (p : GetBestRoutePayload) × (json ≡ ok (object f))
        × IsRouteQueryOf e f p
        × IsRouteQuery p
        × (get_best_route x p ≡ ok r)
  unfolding routed_from
  routed_from-eq-ok x json r h =
      let (body, r0, h0) = >>=-eq-ok json _ h in
      let (p, r1, h1) = >>=-eq-ok (normalize_get_best_route_body e body) _ h0 in
      let (f, same, read) = normalize_get_best_route_body-IsRouteQueryOf e body p r1 in
      (f, p, r0 ∙ ap ok same, read, normalize_get_best_route_body-IsRouteQuery body p r1, h1)

  called :
      (x : RouteExecutor) (p : GetBestRoutePayload) (r : GrpcGetBestRouteResponse)
      → get_best_route x p ≡ ok r
      → (x.available ≡ true) × (x.get_best_route p ≡ ok r)
  unfolding get_best_route
  called x p r h = elim (Bool-cases x.available) [
    | inl there ↦ (there, rw there at h)
    | inr gone ↦ cc (rw gone at h)
  ]

  -- An answer that has not status 500 is the service's own: the body was an object, and the service has
  -- responded to the query that it says, each field the body's under its name, with texts trimmed and none
  -- blank, a positive chain id, one hop where the body has no limit, and an exact output where the body asks
  -- for one and an exact input otherwise; the answer is the service's response, with status 400 where its
  -- notice says that it has failed.
  pub post_best_route-answer :
      (x : RouteExecutor) (json : Attempt Value)
      → (post_best_route e x json).status ≢ 500
      → (f : String → Value) × (p : GetBestRoutePayload) × (r : GrpcGetBestRouteResponse) × (json
          ≡ ok (object f))
        × IsRouteQueryOf e f p
        × IsRouteQuery p
        × (x.available ≡ true)
        × (x.get_best_route p ≡ ok r)
        × (post_best_route e x json ≡ record { status = status_of r.notice; body = r })
  unfolding post_best_route
  post_best_route-answer x json good = elim (attempted (routed_from e x json)) [
    | inr (f, bad) ↦ absurd (good (rw (bad, post_best_route)))
    | inl (r, done) ↦
        let (f, p, sent, read, query, asked) = routed_from-eq-ok x json r done in
        let (there, taken) = called x p r asked in
        (f, p, r, sent, read, query, there, taken, rw (done, post_best_route))
  ]
