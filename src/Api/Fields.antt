-- ===== src/Api/Fields.antt =====
-- How a text or a number of a payload comes from a field of the body, as the routes of
-- frontend/src/app/api read it.
use flux_swap_dex.Common.{
  ℕ, suc, String, true, false, some, ◌≡◌, refl, ap, arith, Bool-cases, inl, inr, ◌⊎◌,
}
use flux_swap_dex.Common.Int.{pos}
use flux_swap_dex.Common.Text.{trim, is_empty}
use flux_swap_dex.Api.Values.{
  Number, whole, Value, undefined, null, text, object, Attempt, ok, failed, Engine, to_number,
  positive_integer, safe_natural, field, filled, or_else,
}

-- The text is the one that the field holds, without the white space at its ends, and not empty.
abbrev pub IsTextOf : Value → String → Type 0
IsTextOf (text t) s = (trim t ≡ s) × (is_empty s ≡ false)
IsTextOf _ s = ⊥

-- The same, or the default where the field holds no text or a blank one.
abbrev pub IsTextOr : String → Value → String → Type 0
IsTextOr default (text t) s =
    ((trim t ≡ s) × (is_empty s ≡ false)) ⊎ ((is_empty (trim t) ≡ true) × (s ≡ default))
IsTextOr default _ s = s ≡ default

pub filled-IsTextOf : (v : Value) (s : String) → filled v ≡ some s → IsTextOf v s
unfolding filled
filled-IsTextOf (text t) s h = elim (Bool-cases (is_empty (trim t))) [
  | inl blank ↦ cc (rw blank at h)
  | inr there ↦ let same : trim t ≡ s = ground (arith, there) in (same, rw (← same) there)
]
filled-IsTextOf v s h = cc

pub or_else-IsTextOr :
    (default : String) (v : Value) → IsTextOr default v (or_else (filled v) default)
unfolding filled
or_else-IsTextOr default (text t) = elim (Bool-cases (is_empty (trim t))) [
  | inl blank ↦ rw blank (inr (refl, refl))
  | inr there ↦ rw there (inl (refl, there))
]
or_else-IsTextOr default v = refl

pub positive_integer-whole : (x : Number) (n : ℕ) → positive_integer x ≡ some n → x ≡ whole (pos n)
unfolding positive_integer
positive_integer-whole (whole (pos (suc k))) n h = ground arith
positive_integer-whole x n h = cc

pub safe_natural-whole : (x : Number) (n : ℕ) → safe_natural x ≡ some n → x ≡ whole (pos n)
unfolding safe_natural
safe_natural-whole (whole (pos k)) n h = ground arith
safe_natural-whole x n h = cc

value_or : Value → Attempt Value → Value
value_or d (ok v) = v
value_or d (failed error) = d

undefined_if : (v : Value) → ok undefined ≡ ok v → undefined ≡ v
unfolding value_or
undefined_if v h = ap (value_or v) h

module _ (e : Engine) where
  not_positive : (v : Value) (n : ℕ) → undefined ≡ v → positive_integer (to_number e v) ≡ some n → ⊥
  unfolding to_number positive_integer
  not_positive v n missing positive = cc (rw (← missing) at positive)

  pub field-object :
      (f : String → Value) (v : Value) (name : String) → field e (object f) name ≡ ok v → f name ≡ v
  unfolding field value_or
  field-object f v name h = ap (value_or v) h

  -- A body with a positive number in a field is an object, and the field is the object's.
  pub positive_field-object :
      (body v : Value) (name : String) (n : ℕ)
      → field e body name ≡ ok v
      → positive_integer (to_number e v) ≡ some n
      → (f : String → Value) × (body ≡ object f) × (f name ≡ v)
  unfolding field
  positive_field-object (object f) v name n read positive = (f, refl, field-object f v name read)
  positive_field-object undefined v name n read positive = cc
  positive_field-object null v name n read positive = cc
  positive_field-object body v name n read positive =
      absurd (not_positive v n (undefined_if v read) positive)
