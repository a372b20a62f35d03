-- ===== src/Treasury/Allocation/Payouts.antt =====
-- What a transaction out of the treasury presupposes.
use flux_swap_dex.Common.{
  String, Bool, true, false, [], ◌∷◌, Option, none, some, ◌≡◌, refl, sym, arith, Option-cases, inl,
  inr, if◌then◌else◌, ◌⊎◌,
}
use flux_swap_dex.Common.Int.{ℤ, pos, ◌+ℤ◌, ◌≤ℤ◌}
use flux_swap_dex.Amounts.{parse_amount}
use flux_swap_dex.Treasury.Types.{
  TokenRow, address, amount, Call, Promised, resolved, rejected, present, given, given_flag,
}
use flux_swap_dex.Treasury.Forms.{Viem}
use flux_swap_dex.Treasury.Allocation.{
  Request, transaction, notice, allocate_call, over_cap, finish, checked, with_token,
  submit_treasury_allocation,
}

-- The question that the contract is asked before a payout.
abbrev pub recipient_call : String → String → Call
recipient_call treasury recipient = record {
  to = treasury;
  function_name = "allowedRecipients";
  args = address recipient ∷ [];
}

answers :
    (x : Promised Bool)
    → (x ≡ resolved true) ⊎ ((x ≡ resolved false) ⊎ ((m : String) × (x ≡ rejected m)))
answers (resolved true) = inl refl
answers (resolved false) = inr (inl refl)
answers (rejected m) = inr (inr (m, refl))

module _ (v : Viem) (allowed_recipient : Call → Promised Bool) where
  pub record IsCovered (r : Request) (t : TokenRow) (units : ℤ) : Type 0 where
    pub wallet : (r.mounted ≡ true) × (r.is_connected ≡ true) × (r.can_allocate ≡ true)
    pub recipient : v.is_address r.recipient_address ≡ true
    pub read : parse_amount v.parse_units r.amount_value t.decimals ≡ some units
    pub positive : pos 1 ≤ℤ units
    pub funded : units ≤ℤ t.balance
    pub capped : (t.daily_spend_cap ≤ℤ pos 0) ⊎ (t.spent_today +ℤ units ≤ℤ t.daily_spend_cap)

  checked-transaction :
      (treasury : String) (t : TokenRow) (r : Request) (units : ℤ) (c : Call)
      → parse_amount v.parse_units r.amount_value t.decimals ≡ some units
      → checked v allowed_recipient treasury t r ≡ transaction c
      → IsCovered r t units
        × (finish v allowed_recipient treasury t r.recipient_address units ≡ transaction c)
  unfolding checked over_cap notice
  checked-transaction treasury t r units c read h = ground (arith, read)

  checked-unread :
      (treasury : String) (t : TokenRow) (r : Request) (c : Call)
      → parse_amount v.parse_units r.amount_value t.decimals ≡ none
      → checked v allowed_recipient treasury t r ≡ transaction c
      → ⊥
  unfolding checked notice
  checked-unread treasury t r c bad h = ground (arith, bad)

  finish-transaction :
      (treasury : String) (t : TokenRow) (recipient : String) (units : ℤ) (c : Call)
      → finish v allowed_recipient treasury t recipient units ≡ transaction c
      → (allowed_recipient (recipient_call treasury recipient) ≡ resolved true)
        × (allocate_call treasury t recipient units ≡ c)
  unfolding finish notice
  finish-transaction treasury t recipient units c h =
      elim (answers (allowed_recipient (recipient_call treasury recipient))) [
        | inl yes_answer ↦ (yes_answer, cc (rw (yes_answer, finish) at h))
        | inr (inl no_answer) ↦ cc (rw (no_answer, finish) at h)
        | inr (inr (m, failed)) ↦ cc (rw (failed, finish) at h)
      ]

  with_token-transaction :
      (o : Option TokenRow) (r : Request) (c : Call)
      → with_token v allowed_recipient o r ≡ transaction c
      → (t : TokenRow) × (o ≡ some t)
        × (present r.treasury_address ≡ true)
        × (checked v allowed_recipient (given r.treasury_address) t r ≡ transaction c)
  unfolding with_token notice
  with_token-transaction none r c h = cc
  with_token-transaction (some t) r c h = (t, refl, ground arith, ground arith)

  -- A payout only goes out where the form is complete and the wallet may allocate, for a positive amount
  -- that the treasury's balance covers and that stays within the token's daily cap, if it has one, to a
  -- recipient that the contract allows; and it is then the call of the treasury's `allocateETH` with
  -- that recipient and that amount for the native token, and of its `allocate` with the token's address, that
  -- recipient and that amount for any other token.
  pub submit-transaction :
      (r : Request) (c : Call)
      → submit_treasury_allocation v allowed_recipient r ≡ transaction c
      → (t : TokenRow) × (units : ℤ) × (r.selected_token ≡ some t)
        × (present r.treasury_address ≡ true)
        × IsCovered r t units
        × (allowed_recipient (recipient_call (given r.treasury_address) r.recipient_address)
            ≡ resolved true)
        × (c ≡ (
            if given_flag t.is_native
            then record {
              to = given r.treasury_address;
              function_name = "allocateETH";
              args = address r.recipient_address ∷ amount units ∷ [];
            }
            else record {
              to = given r.treasury_address;
              function_name = "allocate";
              args = address t.address ∷ address r.recipient_address ∷ amount units ∷ [];
            }))
  unfolding submit_treasury_allocation allocate_call
  submit-transaction r c h =
      let (t, selected, there, passed) = with_token-transaction r.selected_token r c h in
      elim (Option-cases (parse_amount v.parse_units r.amount_value t.decimals)) [
        | inl bad ↦ absurd (checked-unread (given r.treasury_address) t r c bad passed)
        | inr (units, read) ↦
            let (covered, done) =
              checked-transaction (given r.treasury_address) t r units c read passed in
            let (allowed, same) =
              finish-transaction (given r.treasury_address) t r.recipient_address units c done in
            (t, units, selected, there, covered, allowed, sym same)
      ]
