-- ===== src/ErrorMessages/Tests.antt =====
-- Errors of a wallet: one with a cause, and one that is its own cause.
use flux_swap_dex.Common.{ℕ, zero, suc, String, [], ◌∷◌, none, some, ◌≡◌, refl, true}
use flux_swap_dex.Common.Text.{to_lower_case}
use flux_swap_dex.ErrorMessages.{
  object, ErrorObject, Heap, collect_error_messages, FormatErrorMessageOptions,
  format_error_message,
}
use flux_swap_dex.ErrorMessages.Causes.{ends, format_error_message-some, format_error_message-none}

abbrev outer : ErrorObject
outer = record {
  message = some "Request failed";
  short_message = some "Request failed";
  details = none;
  cause = some (object 1);
}

abbrev inner : ErrorObject
inner = record {
  message = some "User rejected";
  short_message = none;
  details = none;
  cause = none;
}

abbrev chain : Heap
chain zero = outer
chain (suc n) = inner

abbrev circle : Heap
circle n = outer

abbrev options : FormatErrorMessageOptions
options = record { rejected_message = none; fallback_message = none }

shown : format_error_message 3 chain (object 0) options ≡ some "你已取消本次操作"
unfolding format_error_message to_lower_case
shown = refl

chain-ends : ends 1 chain (object 0) ≡ true
unfolding ends
chain-ends = refl

format_error_message-some_example :
    (message : String) × (format_error_message 3 chain (object 0) options ≡ some message)
format_error_message-some_example = format_error_message-some 1 chain (object 0) options chain-ends

abbrev InCircle : ℕ → Type 0
InCircle n = n ≡ 1

format_error_message-none_example : format_error_message 1000 circle (object 1) options ≡ none
format_error_message-none_example =
    format_error_message-none circle InCircle (λ r live. (1, refl, refl)) 1000 1 options refl

gathered_both :
    collect_error_messages 3 chain (object 0) ≡ some ("Request failed" ∷ "User rejected" ∷ [])
unfolding collect_error_messages
gathered_both = refl
