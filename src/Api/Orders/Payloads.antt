-- ===== src/Api/Orders/Payloads.antt =====
-- What the checked payloads of the orders route are.
use flux_swap_dex.Common.{
  ℕ, suc, String, Option, none, some, ◌≡◌, refl, Bool-cases, inl, inr, arith,
}
use flux_swap_dex.Common.Int.{pos}
use flux_swap_dex.Common.Text.{trim, is_empty, trim_idem}
use flux_swap_dex.Api.Values.{
  Number, whole, Value, text, ok, >>=-eq-ok, Engine, to_number, positive_integer, field, filled,
  or_throw,
}
use flux_swap_dex.Api.Orders.{require_string, require_chain_id}

-- A text that is not blank and has no white space at its ends.
abbrev pub IsTrimmed : String → Type 0
IsTrimmed s = filled (text s) ≡ some s

abbrev pub IsChainId : ℕ → Type 0
IsChainId n = positive_integer (whole (pos n)) ≡ some n

pub filled-IsTrimmed : (v : Value) (s : String) → filled v ≡ some s → IsTrimmed s
unfolding filled
filled-IsTrimmed (text t) s h = elim (Bool-cases (is_empty (trim t))) [
  | inl blank ↦ cc (rw blank at h)
  | inr there ↦
      let same : trim t ≡ s = ground (arith, there) in rw (← same) (rw (trim_idem t, there) refl)
]
filled-IsTrimmed v s h = cc

pub positive_integer-IsChainId : (x : Number) (n : ℕ) → positive_integer x ≡ some n → IsChainId n
unfolding positive_integer
positive_integer-IsChainId (whole (pos (suc k))) n h = ground arith
positive_integer-IsChainId x n h = cc

pub or_throw-eq-ok :
    {A : Type 0} (o : Option A) (message : String) (a : A) → or_throw o message ≡ ok a → o ≡ some a
or_throw-eq-ok none message a h = cc
or_throw-eq-ok (some b) message a h = cc

module _ (e : Engine) where
  pub require_string-IsTrimmed :
      (v : Value) (name s : String) → require_string e v name ≡ ok s → IsTrimmed s
  unfolding require_string
  require_string-IsTrimmed v name s h =
      let (value, read, checked) = >>=-eq-ok (field e v name) _ h in
      filled-IsTrimmed value s (or_throw-eq-ok (filled value) _ s checked)

  pub require_chain_id-IsChainId :
      (v : Value) (message : String) (n : ℕ) → require_chain_id e v message ≡ ok n → IsChainId n
  unfolding require_chain_id
  require_chain_id-IsChainId v message n h =
      let (value, read, checked) = >>=-eq-ok (field e v "chainId") _ h in
      positive_integer-IsChainId (to_number e value) n
        (or_throw-eq-ok (positive_integer (to_number e value)) message n checked)
