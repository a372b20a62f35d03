-- ===== src/Api/Orders/Query/Laws.antt =====
-- What the checked query of a listing is.
use flux_swap_dex.Common.{
  ℕ, String, false, List, [], ◌∷◌, Option, none, some, ◌≡◌, refl, ap, arith, Bool-cases, inl, inr,
  All, ◌⊎◌,
}
use flux_swap_dex.Common.Text.{trim, is_empty, trim_idem}
use flux_swap_dex.Api.Values.{
  text, Attempt, ok, failed, >>=-eq-ok, Engine, to_number, positive_integer, filled, or_throw,
}
use flux_swap_dex.Api.Backend.{ListOrdersPayload, View}
use flux_swap_dex.Api.Orders.Payloads.{
  IsTrimmed, IsChainId, positive_integer-IsChainId, or_throw-eq-ok,
}
use flux_swap_dex.Api.Orders.Query.{
  SearchParams, get, raw_statuses, trimmed_texts, trimmed_or_none, missing, parse_positive_integer,
  normalize_list_orders_query,
}

abbrev pub IsTrimmedOrNone : Option String → Type 0
IsTrimmedOrNone none = Unit
IsTrimmedOrNone (some s) = IsTrimmed s

pub record IsQuery (p : ListOrdersPayload) : Type 0 where
  pub chain_id : IsChainId p.chain_id
  pub maker : IsTrimmed p.maker
  pub statuses : All IsTrimmed p.statuses
  pub limit : IsChainId p.limit
  pub settlement_address : IsTrimmedOrNone p.settlement_address
  pub cursor : IsTrimmedOrNone p.cursor

trimmed : (s : String) → is_empty (trim s) ≡ false → IsTrimmed (trim s)
unfolding filled
trimmed s there = rw (trim_idem s, there) refl

trimmed_texts-All : (ss : List String) → All IsTrimmed (trimmed_texts ss)
unfolding trimmed_texts
trimmed_texts-All [] = tt
trimmed_texts-All (s ∷ ss) = elim (Bool-cases (is_empty (trim s))) [
  | inl blank ↦ rw blank (trimmed_texts-All ss)
  | inr there ↦ rw there (trimmed s there, trimmed_texts-All ss)
]

trimmed_or_none-lem : (o : Option String) → IsTrimmedOrNone (trimmed_or_none o)
unfolding trimmed_or_none
trimmed_or_none-lem none = tt
trimmed_or_none-lem (some s) = elim (Bool-cases (is_empty (trim s))) [
  | inl blank ↦ rw blank tt
  | inr there ↦ rw there (trimmed s there)
]

trimmed_or_none-some : (o : Option String) (s : String) → trimmed_or_none o ≡ some s → IsTrimmed s
unfolding trimmed_or_none
trimmed_or_none-some none s h = cc
trimmed_or_none-some (some t) s h = elim (Bool-cases (is_empty (trim t))) [
  | inl blank ↦ cc (rw blank at h)
  | inr there ↦ let same : trim t ≡ s = ground (arith, there) in rw (← same) (trimmed t there)
]

second_of : ListOrdersPayload → Attempt (View × ListOrdersPayload) → ListOrdersPayload
second_of d (ok (v, p)) = p
second_of d (failed x) = d

second_inj :
    {v w : View} {p q : ListOrdersPayload}
    → ◌≡◌ {A = Attempt (View × ListOrdersPayload)} (ok (v, p)) (ok (w, q))
    → p ≡ q
unfolding second_of
second_inj {v} {w} {p} h = ap (second_of p) h

module _ (e : Engine) where
  missing-IsChainId :
      (name : String) (fallback : Option ℕ) (n : ℕ)
      → (fallback ≡ none) ⊎ (fallback ≡ some 100)
      → missing e name fallback ≡ ok n
      → IsChainId n
  unfolding missing positive_integer
  missing-IsChainId name none n f h = cc
  missing-IsChainId name (some k) n (inr is_100) h =
      let same : n ≡ 100 = ground arith in rw same refl
  missing-IsChainId name (some k) n (inl bad) h = cc

  parse-IsChainId :
      (o : Option String) (name : String) (fallback : Option ℕ) (n : ℕ)
      → (fallback ≡ none) ⊎ (fallback ≡ some 100)
      → parse_positive_integer e o name fallback ≡ ok n
      → IsChainId n
  unfolding parse_positive_integer
  parse-IsChainId none name fallback n f h = missing-IsChainId name fallback n f h
  parse-IsChainId (some value) name fallback n f h = elim (Bool-cases (is_empty (trim value))) [
    | inl blank ↦ missing-IsChainId name fallback n f (rw blank at h)
    | inr there ↦
        positive_integer-IsChainId (to_number e (text value)) n
          (or_throw-eq-ok (positive_integer (to_number e (text value))) _ n (rw there at h))
  ]

  -- Every query that a listing is made from asks for a positive safe chain id, with a positive safe limit and
  -- a maker that is trimmed and not blank; each of its statuses is trimmed and not blank, and so are the
  -- settlement address and the cursor where they are there.
  pub normalize_list_orders_query-IsQuery :
      (params : SearchParams) (view : View) (p : ListOrdersPayload)
      → normalize_list_orders_query e params ≡ ok (view, p)
      → IsQuery p
  unfolding normalize_list_orders_query
  normalize_list_orders_query-IsQuery params view p h =
      let (chain_id, r0, h0) =
        >>=-eq-ok (parse_positive_integer e (get params "chainId") "chainId" none) _ h in
      let (maker, r1, h1) =
        >>=-eq-ok (or_throw (trimmed_or_none (get params "maker")) "maker is required") _ h0 in
      let (limit, r2, h2) =
        >>=-eq-ok (parse_positive_integer e (get params "limit") "limit" (some 100)) _ h1 in
      rw (← second_inj h2) (record {
        chain_id = parse-IsChainId (get params "chainId") "chainId" none chain_id (inl refl) r0;
        maker =
            trimmed_or_none-some (get params "maker") maker
              (or_throw-eq-ok (trimmed_or_none (get params "maker")) _ maker r1);
        statuses = trimmed_texts-All (raw_statuses params);
        limit = parse-IsChainId (get params "limit") "limit" (some 100) limit (inr refl) r2;
        settlement_address = trimmed_or_none-lem (get params "settlementAddress");
        cursor = trimmed_or_none-lem (get params "cursor");
      })
