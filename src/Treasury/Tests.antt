-- ===== src/Treasury/Tests.antt =====
-- The treasury's operations on concrete forms.
use flux_swap_dex.Common.{
  if◌then◌else◌, ◌⊎◌, ℕ, String, Bool, true, List, [], ◌∷◌, ◌++◌, none, some, ◌≡◌, ◌≢◌, refl,
  str_eq,
}
use flux_swap_dex.Common.Int.{ℤ, pos, negsuc, ◌≤ℤ◌}
use flux_swap_dex.Common.Text.{trim}
use flux_swap_dex.Common.BigInt.{parse_big_int}
use flux_swap_dex.Treasury.Allocation
use flux_swap_dex.Treasury.Allocation.{submit_treasury_allocation, allocate_call}
use flux_swap_dex.Treasury.Allocation.Payouts.{IsCovered, recipient_call, submit-transaction}
use flux_swap_dex.Treasury.Draft.{drafted, draft_of, build_treasury_operation_draft}
use flux_swap_dex.Treasury.Forms.{Viem, Form, delay_of}
use flux_swap_dex.Treasury.Plans.{draft_approve_spender}
use flux_swap_dex.Treasury.Executable.{hash_name, execute_name}
use flux_swap_dex.Treasury.Execution.{build_treasury_execution_request}
use flux_swap_dex.Treasury.MetadataStore.{
  Records, Store, reload, persist_metadata, remove_metadata, load_treasury_operation_metadata,
}
use flux_swap_dex.Treasury.MetadataStore.Laws.{
  Step, persisted, removed, step, steps, steps-reload-IsSaved,
}
use flux_swap_dex.Treasury.Ordering.{Before, sort_operations-Before, sort_operations-tie}
use flux_swap_dex.Treasury.Utils.{sort_operations, by_status}
use flux_swap_dex.Treasury.RoundTrip.{drafted_executes, drafted_delay}
use flux_swap_dex.Treasury.Types.{
  approve_spender, OperationRow, pending, ready, no_params, Metadata, TokenRow, Arg, hash, Call,
  Promised, resolved, present, given, given_flag, address, amount,
}

-- A stand-in for viem: one address, and amounts of one digit's worth.
abbrev viem : Viem
viem = record { is_address = λ s. str_eq s "0xabc"; parse_units = λ s decimals. some (pos 5) }

abbrev contract : Call → Promised String
contract c = resolved "0xid"

abbrev form : Form
form = record {
  has_client = true;
  chain_id = 31337;
  treasury_address = some "0xt";
  treasury_min_delay = some (pos 3600);
  operation_kind = approve_spender;
  selected_token = some (record { address = "0xf"; symbol = "FLUX"; name = "Flux"; decimals = 18 });
  boolean_value = "true";
  target_address = "";
  spender_address = "0xabc";
  amount_value = "5";
  effective_delay_seconds = "7200";
  new_min_delay_value = "";
  withdraw_recipient_address = "";
  withdraw_amount_value = "";
}

abbrev draft : Metadata
draft = record {
  version = 1;
  chain_id = 31337;
  treasury_address = "0xt";
  operation_id = "0xid";
  kind = approve_spender;
  label = "授权额度";
  summary = "授权 0xabc...xabc 可使用 5 FLUX";
  params = record no_params {
    token = some "0xf";
    token_symbol = some "FLUX";
    spender = some "0xabc";
    amount_units = some "5";
    amount_display = some "5";
  };
  created_at = 9;
}

built : build_treasury_operation_draft viem contract 9 form ≡ drafted draft
unfolding build_treasury_operation_draft trim parse_big_int draft_of draft_approve_spender
built = refl

drafted_executes_example :
    (operation : String) × (args : List Arg) × (contract
        (record { to = "0xt"; function_name = hash_name operation; args = args })
      ≡ resolved "0xid")
    × (title : String) × (build_treasury_execution_request "0xt" "0xid" draft
        ≡ some (record {
          title = title;
          tx = resolved (record {
            to = "0xt";
            function_name = execute_name operation;
            args = args ++ hash "0xid" ∷ [];
          });
        }))
drafted_executes_example = drafted_executes viem contract 9 form draft "0xt" refl refl built

drafted_delay_example :
    (true ≡ true)
    × (present (some "0xt") ≡ true)
    × (delay : ℤ) × (delay_of form ≡ some (some delay))
    × (delay ≢ pos 0)
    × (pos 3600 ≤ℤ delay)
drafted_delay_example = drafted_delay viem contract 9 form draft built

abbrev row : TokenRow
row = record {
  address = "0xf";
  symbol = "FLUX";
  name = "Flux";
  decimals = 18;
  balance = pos 100;
  approved_spend_remaining = pos 0;
  daily_spend_cap = pos 20;
  spent_today = pos 15;
  allowed = true;
  is_native = none;
}

abbrev payout : Allocation.Request
payout = record {
  treasury_address = some "0xt";
  selected_token = some row;
  has_client = true;
  mounted = true;
  is_connected = true;
  can_allocate = true;
  paused = none;
  recipient_address = "0xabc";
  amount_value = "5";
}

abbrev allows : Call → Promised Bool
allows c = resolved true

abbrev sent : Call
unfolding allocate_call
sent = record {
  to = "0xt";
  function_name = "allocate";
  args = address row.address ∷ address "0xabc" ∷ amount (pos 5) ∷ [];
}

submitted : submit_treasury_allocation viem allows payout ≡ Allocation.transaction sent
unfolding submit_treasury_allocation allocate_call
submitted = refl

submit-transaction_example :
    (t : TokenRow) × (units : ℤ) × (some row ≡ some t)
    × (present (some "0xt") ≡ true)
    × IsCovered viem allows payout t units
    × (allows (recipient_call "0xt" "0xabc") ≡ resolved true)
    × (sent ≡ (
        if given_flag t.is_native
        then record {
          to = "0xt";
          function_name = "allocateETH";
          args = address "0xabc" ∷ amount units ∷ [];
        }
        else record {
          to = "0xt";
          function_name = "allocate";
          args = address t.address ∷ address "0xabc" ∷ amount units ∷ [];
        }))
submit-transaction_example = submit-transaction viem allows payout sent submitted

abbrev store : Store
store = record {
  chain_id = 31337;
  mounted = true;
  treasury_address = some "0xt";
  operation_metadata_by_id = [];
  storage = some [];
}

abbrev full : Store
full = record store { operation_metadata_by_id = ("0xid", draft) ∷ [] }

abbrev life : List Step
life = persisted draft ∷ removed "0xother" ∷ []

abbrev items : List (String × Records)
items = ("fluxswap-admin:treasury-operations:31337:0xt", ("0xid", draft) ∷ []) ∷ []

steps-reload-IsSaved_example :
    load_treasury_operation_metadata
      (steps life (reload store)).chain_id
      (given (steps life (reload store)).treasury_address)
      (steps life (reload store)).storage
    ≡ (steps life (reload store)).operation_metadata_by_id
unfolding steps step reload persist_metadata remove_metadata
steps-reload-IsSaved_example = steps-reload-IsSaved life store items refl refl refl

abbrev operation : ℕ → OperationRow
operation time = record {
  operation_id = "0xid";
  execute_after = pos time;
  scheduler = none;
  status = pending;
  block_number = pos 0;
  metadata = none;
}

abbrev ready_operation : OperationRow
ready_operation = record (operation 9) { status = ready }

ready_first : sort_operations ready_operation (operation 5) ≡ negsuc 0
unfolding sort_operations
ready_first = refl

early_first : sort_operations (operation 5) (operation 7) ≡ negsuc 0
unfolding sort_operations by_status
early_first = refl

sort_operations-Before_example :
    ((sort_operations ready_operation (operation 5) ≡ negsuc 0)
      × Before ready_operation (operation 5))
    ⊎ ((sort_operations ready_operation (operation 5) ≡ pos 1)
        × (Before ready_operation (operation 5) → ⊥))
sort_operations-Before_example = sort_operations-Before ready_operation (operation 5)

sort_operations-tie_example :
    (sort_operations (operation 5) (operation 5) ≡ pos 1)
    × (sort_operations (operation 5) (operation 5) ≡ pos 1)
sort_operations-tie_example = sort_operations-tie (operation 5) (operation 5) refl refl refl
