-- ===== src/Treasury/RoundTrip.antt =====
-- From the form to the executing transaction: the draft, its record and the execution of that record.
use flux_swap_dex.Common.{
  ℕ, String, Bool, true, false, List, [], ◌∷◌, ◌++◌, Option, none, some, ◌≡◌, ◌≢◌, refl, ap, ◌∙◌,
  Bool-cases, Option-cases, inl, inr, not, ◌||◌, ◌⊎◌, arith,
}
use flux_swap_dex.Common.Int.{ℤ, pos, ◌≤ℤ◌}
use flux_swap_dex.Treasury.Types.{
  Metadata, Arg, hash, Call, Promised, resolved, rejected, present, given,
}
use flux_swap_dex.Treasury.Draft.{
  Outcome, drafted, prepare, checked_draft, draft_of, completed, metadata_of,
  build_treasury_operation_draft,
}
use flux_swap_dex.Treasury.Forms.{
  Viem, Form, Plan, Draft, refused, failed, planned, delay_of, too_short, units_of,
}
use flux_swap_dex.Treasury.Executable.{hash_name, execute_name}
use flux_swap_dex.Treasury.TokenOperations.{HasAddress, draft_of-Executes}
use flux_swap_dex.Treasury.Execution.{build_treasury_execution_request}

module _ (v : Viem) where
  -- A plan passed the checks of the form: the contract is known, and the delay is long enough.
  checked_draft-planned :
      (f : Form) (p : Plan)
      → checked_draft v f ≡ planned p
      → (delay : Option ℤ) × (delay_of f ≡ some delay)
        × (too_short delay f.treasury_min_delay ≡ false)
        × (draft_of v f.operation_kind f ≡ planned p)
  unfolding checked_draft
  checked_draft-planned f p h = elim (Option-cases (delay_of f)) [
    | inl bad ↦ cc (rw (bad, checked_draft) at h)
    | inr (delay, read) ↦ elim (Bool-cases (too_short delay f.treasury_min_delay)) [
      | inl short ↦ cc (rw (read, checked_draft, short) at h)
      | inr long ↦ (delay, read, long, rw (read, checked_draft, long) at h)
    ]
  ]

  prepare-planned :
      (f : Form) (p : Plan)
      → prepare v f ≡ planned p
      → (not f.has_client || not (present f.treasury_address) ≡ false)
        × (checked_draft v f ≡ planned p)
  unfolding prepare
  prepare-planned f p h = elim (Bool-cases (not f.has_client || not (present f.treasury_address))) [
    | inl missing ↦ cc (rw missing at h)
    | inr there ↦ (there, rw there at h)
  ]

abbrev asked : Form → Plan → Call
asked f p = record { to = given f.treasury_address; function_name = p.function_name; args = p.args }

too_short-false :
    (delay least : Option ℤ)
    → too_short delay least ≡ false
    → (d : ℤ) × (delay ≡ some d) × (d ≢ pos 0) × (units_of least ≤ℤ d)
unfolding too_short
too_short-false none least h = cc
too_short-false (some d) least h = (d, refl, ground arith, ground arith)

both_there : (a b : Bool) → not a || not b ≡ false → (a ≡ true) × (b ≡ true)
both_there true true h = (refl, refl)
both_there true false h = cc
both_there false b h = cc

metadata_in : Metadata → Outcome → Metadata
metadata_in d (drafted m) = m
metadata_in d _ = d

drafted_inj : {m n : Metadata} → drafted m ≡ drafted n → m ≡ n
unfolding metadata_in
drafted_inj {m} h = ap (metadata_in m) h

Promised-cases :
    (x : Promised String)
    → ((id : String) × (x ≡ resolved id)) ⊎ ((message : String) × (x ≡ rejected message))
Promised-cases (resolved id) = inl (id, refl)
Promised-cases (rejected message) = inr (message, refl)

-- A draft that is made was planned, and the contract answered with its id.
completed-drafted :
    (f : Form) (now : ℕ) (read : Call → Promised String) (d : Draft) (m : Metadata)
    → completed f now read d ≡ drafted m
    → (p : Plan) × (id : String) × (d ≡ planned p)
      × (read (asked f p) ≡ resolved id)
      × (metadata_of f now p id ≡ m)
unfolding completed
completed-drafted f now read (refused n) m h = cc
completed-drafted f now read failed m h = cc
completed-drafted f now read (planned p) m h = elim (Promised-cases (read (asked f p))) [
  | inl (id, ok) ↦ (p, id, refl, ok, drafted_inj (rw (ok, completed) at h))
  | inr (message, bad) ↦ cc (rw (bad, completed) at h)
]

module _ (v : Viem) (read : Call → Promised String) (now : ℕ) where
  -- A draft that the form yields can be executed as it was drafted: the contract was asked for the id of
  -- an operation `hashX` with some arguments, and the record of the draft, read again, gives the
  -- transaction `executeX` with the same arguments and that id, for every kind of operation. It is
  -- supposed that viem takes no empty text for an address and that a selected token has an address.
  pub drafted_executes :
      (f : Form) (m : Metadata) (treasury : String)
      → v.is_address "" ≡ false
      → HasAddress f.selected_token
      → build_treasury_operation_draft v read now f ≡ drafted m
      → (operation : String) × (args : List Arg) × (read (record {
        to = given f.treasury_address;
        function_name = hash_name operation;
        args = args;
      })
          ≡ resolved m.operation_id)
        × (title : String) × (build_treasury_execution_request treasury m.operation_id m
            ≡ some (record {
              title = title;
              tx = resolved (record {
                to = treasury;
                function_name = execute_name operation;
                args = args ++ hash m.operation_id ∷ [];
              });
            }))
  unfolding build_treasury_operation_draft build_treasury_execution_request metadata_of
  drafted_executes f m treasury strict has h =
      let (p, id, made, answer, same) = completed-drafted f now read (prepare v f) m h in
      let (there, checked) = prepare-planned v f p made in
      let (delay, known, long, draft) = checked_draft-planned v f p checked in
      let (operation, named, execution) =
        draft_of-Executes v strict f.operation_kind f p has draft in
      let (title, built) = execution treasury id in
      rw (← same) (operation, p.args, rw (← named) answer, title, built)

  -- A draft is only made for a known contract, and with a delay that is not 0 and not below the
  -- contract's own, which counts as 0 where it is not known.
  pub drafted_delay :
      (f : Form) (m : Metadata)
      → build_treasury_operation_draft v read now f ≡ drafted m
      → (f.has_client ≡ true)
        × (present f.treasury_address ≡ true)
        × (delay : ℤ) × (delay_of f ≡ some (some delay))
        × (delay ≢ pos 0)
        × (units_of f.treasury_min_delay ≤ℤ delay)
  unfolding build_treasury_operation_draft
  drafted_delay f m h =
      let (p, id, made, answer, same) = completed-drafted f now read (prepare v f) m h in
      let (there, checked) = prepare-planned v f p made in
      let (delay, known, long, draft) = checked_draft-planned v f p checked in
      let (d, here, nonzero, enough) = too_short-false delay f.treasury_min_delay long in
      let (client, contract) = both_there f.has_client (present f.treasury_address) there in
      (client, contract, d, known ∙ ap some here, nonzero, enough)
