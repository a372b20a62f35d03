-- ===== src/Api/Values.antt =====
-- What the routes of frontend/src/app/api are given: values of JavaScript, and failures.
-- A value that a request or the backend sends is one of `Value`; what a `throw` or a rejected promise
-- carries is a `Failure`.
use flux_swap_dex.Common.{
  ℕ, suc, String, Bool, false, List, [], ◌∷◌, Option, none, some, leb, if◌then◌else◌, ◌≡◌, refl,
}
use flux_swap_dex.Common.Int.{ℤ, pos}
use flux_swap_dex.Common.Text.{trim, is_empty}

-- A whole number that a double holds exactly, at most 2 ^ 53 in magnitude; any other by its text.
pub data Number : Type 0 where
  whole : ℤ → Number
  other : String → Number

mutual
  pub data Value : Type 0 where
    undefined null : Value
    boolean : Bool → Value
    number : Number → Value
    big_integer : ℤ → Value
    text : String → Value
    array : Items → Value
    object : (String → Value) → Value

  pub data Items : Type 0 where
    end : Items
    item : Value → Items → Items

abbrev pub items_list : Items → List Value
items_list end = []
items_list (item v rest) = v ∷ items_list rest

abbrev pub list_items : List Value → Items
list_items [] = end
list_items (v ∷ rest) = item v (list_items rest)

-- An `Error` has a message, another thrown value has none; gRPC marks a call that came too late.
pub record Failure : Type 0 where
  pub message : Option String
  pub deadline_exceeded : Bool

pub data Attempt {ℓ} (A : Type ℓ) : Type ℓ where
  ok : A → Attempt A
  failed : Failure → Attempt A

infixl 5 ◌>>=◌
abbrev pub ◌>>=◌ {ℓ κ} : {A : Type ℓ} {B : Type κ} → Attempt A → (A → Attempt B) → Attempt B
ok a >>= f = f a
failed e >>= f = failed e

-- `throw new Error(message)`
abbrev pub throw {ℓ} : {A : Type ℓ} → String → Attempt A
throw message = failed (record { message = some message; deadline_exceeded = false })

-- What comes before has succeeded where the whole has.
pub >>=-eq-ok {ℓ κ} :
    {A : Type ℓ} {B : Type κ} (first : Attempt A) (next : A → Attempt B) {result : B}
    → (first >>= next) ≡ ok result
    → (value : A) × (first ≡ ok value) × (next value ≡ ok result)
>>=-eq-ok (ok value) next success = (value, refl, success)
>>=-eq-ok (failed e) next success = cc

-- What the routes use of the engine: `Number(value)` of a text, a big integer or an object, and the
-- message of the TypeError for a field of `null` or `undefined`.
pub record Engine : Type 0 where
  pub number_of : Value → Number
  pub no_field : Value → String → String

-- `Number(value)`
unfoldable pub to_number : Engine → Value → Number
to_number e undefined = other "NaN"
to_number e null = whole (pos 0)
to_number e (boolean b) = whole (pos (if b then 1 else 0))
to_number e (number n) = n
to_number e v = e.number_of v

abbrev pub max_safe_integer : ℕ
max_safe_integer = 9007199254740991

-- A number that passes `Number.isSafeInteger(n) && n > 0`, and what it is then.
unfoldable pub positive_integer : Number → Option ℕ
positive_integer (whole (pos (suc n))) = if leb (suc n) max_safe_integer then some (suc n) else none
positive_integer _ = none

-- `Number.isSafeInteger(n) && n >= 0`
unfoldable pub safe_natural : Number → Option ℕ
safe_natural (whole (pos n)) = if leb n max_safe_integer then some n else none
safe_natural _ = none

-- `value.name`
unfoldable pub field : Engine → Value → String → Attempt Value
field e undefined name = throw (e.no_field undefined name)
field e null name = throw (e.no_field null name)
field e (object f) name = ok (f name)
field e _ name = ok undefined

-- `isString(value)`, with the trimmed text that the routes then use.
unfoldable pub filled : Value → Option String
unfolding trim
filled (text s) = if is_empty (trim s) then none else some (trim s)
filled _ = none

abbrev pub or_throw {ℓ} : {A : Type ℓ} → Option A → String → Attempt A
or_throw none message = throw message
or_throw (some a) message = ok a

abbrev pub or_else : Option String → String → String
or_else none fallback = fallback
or_else (some s) fallback = s
