-- ===== src/ErrorMessages/Causes.antt =====
-- The search along the causes of an error: when it ends, and what it gathers.
use mathlib.Core.Option.{some-injective}
use flux_swap_dex.Common.{
  ℕ, zero, suc, String, Bool, true, false, ◌||◌, List, [], ◌∷◌, ◌++◌, Option, none, some, str_eq,
  eq_iff, ◌≡◌, refl, arith, Bool-cases, Option-cases, inl, inr,
}
use flux_swap_dex.ErrorMessages.{
  Thrown, plain, object, ErrorObject, Heap, contains, add_text, add_option, unless_empty, gathered,
  causes, collect_loop, collect_error_messages, FormatErrorMessageOptions, message_for,
  format_error_message,
}

-- Whether the causes of a value end after at most so many steps.
unfoldable pub ends : ℕ → Heap → Thrown → Bool
ends fuel heap plain = true
ends zero heap (object r) = elim (heap r).cause [ none ↦ true | some t ↦ false ]
ends (suc n) heap (object r) = elim (heap r).cause [ none ↦ true | some t ↦ ends n heap t ]

collect_loop-some :
    (n : ℕ) (heap : Heap) (t : Thrown) (xs : List String)
    → ends n heap t ≡ true
    → (ys : List String) × (collect_loop (suc (suc n)) heap (t ∷ []) xs ≡ some ys)
unfolding ends collect_loop
collect_loop-some n heap plain xs h = (xs, refl)
collect_loop-some zero heap (object r) xs h = elim (Option-cases (heap r).cause) [
  | inl last ↦ (gathered (heap r) xs, rw (last, collect_loop))
  | inr (t, more) ↦ cc (rw (more, ends) at h)
]
collect_loop-some (suc n) heap (object r) xs h = elim (Option-cases (heap r).cause) [
  | inl last ↦ (gathered (heap r) xs, rw (last, collect_loop))
  | inr (t, more) ↦
      rw (more, collect_loop)
        (collect_loop-some n heap t (gathered (heap r) xs) (rw (more, ends) at h))
]

-- Where the causes of an error end after at most `n` steps, a message is shown for it: the loop takes at most
-- `n + 2` rounds.
pub format_error_message-some :
    (n : ℕ) (heap : Heap) (error : Thrown) (options : FormatErrorMessageOptions)
    → ends n heap error ≡ true
    → (shown : String) × (format_error_message (suc (suc n)) heap error options ≡ some shown)
unfolding format_error_message collect_error_messages
format_error_message-some n heap error options h =
    let (ys, done) = collect_loop-some n heap error [] h in
    (message_for options ys, rw (done, format_error_message))

module _ (heap : Heap) (Live : ℕ → Type 0)
    (next : (r : ℕ) → Live r → (q : ℕ) × ((heap r).cause ≡ some (object q)) × Live q) where
  collect_loop-none :
      (fuel r : ℕ) (xs : List String) → Live r → collect_loop fuel heap (object r ∷ []) xs ≡ none
  unfolding collect_loop
  collect_loop-none zero r xs live = refl
  collect_loop-none (suc fuel) r xs live =
      let (q, cause, after) = next r live in
      rw (cause, collect_loop) (collect_loop-none fuel q (gathered (heap r) xs) after)

  -- Where the causes of an error never end, as in a cycle of causes, no message is shown, however
  -- long the loop runs.
  pub format_error_message-none :
      (fuel r : ℕ) (options : FormatErrorMessageOptions)
      → Live r
      → format_error_message fuel heap (object r) options ≡ none
  unfolding format_error_message collect_error_messages
  format_error_message-none fuel r options live =
      rw (collect_loop-none fuel r [] live, format_error_message)

-- No text stands twice.
abbrev pub IsDistinct : List String → Type 0
IsDistinct [] = Unit
IsDistinct (x ∷ xs) = (contains x xs ≡ false) × IsDistinct xs

contains-append :
    (s t : String) (xs : List String) → contains s (xs ++ t ∷ []) ≡ (contains s xs || str_eq t s)
unfolding contains
contains-append s t [] = ground arith
contains-append s t (x ∷ xs) = ground (arith, contains-append s t xs)

append-IsDistinct :
    (s : String) (xs : List String)
    → contains s xs ≡ false
    → IsDistinct xs
    → IsDistinct (xs ++ s ∷ [])
unfolding contains
append-IsDistinct s [] h d = (refl, tt)
append-IsDistinct s (x ∷ xs) h (once, d) = (
  ground (arith, contains-append x s xs, eq_iff x s, eq_iff s x),
  append-IsDistinct s xs (ground arith) d,
)

add_option-IsDistinct :
    (o : Option String) (xs : List String) → IsDistinct xs → IsDistinct (add_option o xs)
unfolding add_option add_text
add_option-IsDistinct none xs d = d
add_option-IsDistinct (some s) xs d = elim (Bool-cases (contains s xs)) [
  | inl there ↦ rw there d
  | inr new ↦ rw new (append-IsDistinct s xs new d)
]

gathered-IsDistinct :
    (o : ErrorObject) (xs : List String) → IsDistinct xs → IsDistinct (gathered o xs)
unfolding gathered
gathered-IsDistinct o xs d =
    add_option-IsDistinct o.details
      (add_option o.short_message (add_option (unless_empty o.message) xs))
      (add_option-IsDistinct o.short_message (add_option (unless_empty o.message) xs)
        (add_option-IsDistinct (unless_empty o.message) xs d))

collect_loop-IsDistinct :
    (fuel : ℕ) (heap : Heap) (queue : List Thrown) (xs ys : List String)
    → IsDistinct xs
    → collect_loop fuel heap queue xs ≡ some ys
    → IsDistinct ys
unfolding collect_loop
collect_loop-IsDistinct fuel heap [] xs ys d h =
    let same : xs ≡ ys = some-injective _ _ h in rw (← same) d
collect_loop-IsDistinct zero heap (t ∷ queue) xs ys d h = cc
collect_loop-IsDistinct (suc fuel) heap (plain ∷ queue) xs ys d h =
    collect_loop-IsDistinct fuel heap queue xs ys d h
collect_loop-IsDistinct (suc fuel) heap (object r ∷ queue) xs ys d h =
    collect_loop-IsDistinct fuel heap (queue ++ causes (heap r).cause) (gathered (heap r) xs) ys
      (gathered-IsDistinct (heap r) xs d) h

-- The messages that the search gathers are distinct.
pub collect_error_messages-IsDistinct :
    (fuel : ℕ) (heap : Heap) (error : Thrown) (messages : List String)
    → collect_error_messages fuel heap error ≡ some messages
    → IsDistinct messages
unfolding collect_error_messages
collect_error_messages-IsDistinct fuel heap error messages h =
    collect_loop-IsDistinct fuel heap (error ∷ []) [] messages tt h
