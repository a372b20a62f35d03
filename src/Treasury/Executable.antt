-- ===== src/Treasury/Executable.antt =====
-- Each drafted operation can be executed: its execution calls the contract with the arguments that its
-- id was asked for.
use Prim.Native.String.{[] as empty_text, ◌∷◌ as char_cons, ◌++◌ as append}
use flux_swap_dex.Common.{
  String, Bool, true, false, [], ◌∷◌, ◌++◌, Option, none, some, ◌≡◌, refl, ap, Bool-cases,
  Option-cases, inl, inr,
}
use flux_swap_dex.Common.Int.{ℤ, pos, leb_ℤ}
use flux_swap_dex.Common.Text.{trim, is_empty}
use flux_swap_dex.Common.BigInt.{to_string, parse_big_int}
use flux_swap_dex.Common.BigInt.RoundTrip.{parse_big_int-to_string, is_empty-to_string}
use flux_swap_dex.Amounts.{parse_amount}
use flux_swap_dex.Treasury.Types.{
  Kind, set_allowed_token, set_allowed_recipient, set_guardian, set_operator, set_min_delay,
  emergency_withdraw_eth, hash, Call, resolved,
}
use flux_swap_dex.Treasury.Forms.{Viem, TokenOption, Plan, Draft, planned}
use flux_swap_dex.Treasury.Plans.{
  draft_allowed_token, draft_allowed_recipient, draft_guardian, draft_operator, draft_min_delay,
  positive_delay, draft_withdraw_eth,
}
use flux_swap_dex.Treasury.Execution.{request_for, request, with_amount}

-- The contract's names of an operation: `hashX` gives its id, and `executeX` executes it.
abbrev pub hash_name : String → String
hash_name = append "hash"

abbrev pub execute_name : String → String
execute_name = append "execute"

-- The execution that a plan's record leads to.
abbrev pub Executes : Kind → Plan → Type 0
Executes k p =
    (operation : String) × (p.function_name ≡ hash_name operation)
    × ((treasury id : String)
        → (title : String) × (request_for treasury id k p.params
            ≡ some (record {
              title = title;
              tx = resolved (record {
                to = treasury;
                function_name = execute_name operation;
                args = p.args ++ hash id ∷ [];
              });
            })))

plan_of : Plan → Draft → Plan
plan_of d (planned p) = p
plan_of d _ = d

planned_inj : {p q : Plan} → planned p ≡ planned q → p ≡ q
unfolding plan_of
planned_inj {p} h = ap (plan_of p) h

pub by_plan : (k : Kind) {p q : Plan} → planned p ≡ planned q → Executes k p → Executes k q
by_plan k h e = rw (← planned_inj h) e

pub with_amount_lem : (z : ℤ) (f : ℤ → Call) → with_amount (to_string z) f ≡ resolved (f z)
unfolding with_amount
with_amount_lem z f = rw (parse_big_int-to_string z, with_amount)

module _ (v : Viem) (strict : v.is_address "" ≡ false) where
  pub address_present : (s : String) → v.is_address s ≡ true → is_empty s ≡ false
  address_present empty_text h = cc (h, strict)
  address_present (char_cons c s) h = refl

  pub allowed_token_Executes :
      (t : Option TokenOption) (b : Bool) (p : Plan)
      → draft_allowed_token v t b ≡ planned p
      → Executes set_allowed_token p
  unfolding draft_allowed_token request_for request
  allowed_token_Executes none b p h = cc
  allowed_token_Executes (some t) b p h = elim (Bool-cases (v.is_address t.address)) [
    | inr bad ↦ cc (rw bad at h)
    | inl ok ↦
        by_plan set_allowed_token (rw ok at h)
          ("SetAllowedToken", refl, λ treasury id. ("已更新资产白名单", rw (address_present t.address ok)))
  ]

  pub allowed_recipient_Executes :
      (a : String) (b : Bool) (p : Plan)
      → draft_allowed_recipient v a b ≡ planned p
      → Executes set_allowed_recipient p
  unfolding draft_allowed_recipient request_for request
  allowed_recipient_Executes a b p h = elim (Bool-cases (v.is_address a)) [
    | inr bad ↦ cc (rw bad at h)
    | inl ok ↦
        by_plan set_allowed_recipient (rw ok at h)
          ("SetAllowedRecipient", refl, λ treasury id. ("已更新接收方白名单", rw (address_present a ok)))
  ]

  pub guardian_Executes :
      (a : String) (p : Plan) → draft_guardian v a ≡ planned p → Executes set_guardian p
  unfolding draft_guardian request_for request
  guardian_Executes a p h = elim (Bool-cases (v.is_address a)) [
    | inr bad ↦ cc (rw bad at h)
    | inl ok ↦
        by_plan set_guardian (rw ok at h)
          ("SetGuardian", refl, λ treasury id. ("已更新守护者", rw (address_present a ok)))
  ]

  pub operator_Executes :
      (a : String) (p : Plan) → draft_operator v a ≡ planned p → Executes set_operator p
  unfolding draft_operator request_for request
  operator_Executes a p h = elim (Bool-cases (v.is_address a)) [
    | inr bad ↦ cc (rw bad at h)
    | inl ok ↦
        by_plan set_operator (rw ok at h)
          ("SetOperator", refl, λ treasury id. ("已更新操作员", rw (address_present a ok)))
  ]

  positive_delay-Executes :
      (d : ℤ) (p : Plan) → positive_delay v d ≡ planned p → Executes set_min_delay p
  unfolding positive_delay request_for request
  positive_delay-Executes d p h = elim (Bool-cases (leb_ℤ d (pos 0))) [
    | inl bad ↦ cc (rw bad at h)
    | inr ok ↦ by_plan set_min_delay (rw ok at h) (
      "SetMinDelay",
      refl,
      λ treasury id. ("已更新治理延迟", rw (is_empty-to_string d, with_amount_lem d)),
    )
  ]

  pub min_delay_Executes :
      (a : String) (p : Plan) → draft_min_delay v a ≡ planned p → Executes set_min_delay p
  unfolding draft_min_delay
  min_delay_Executes a p h = elim (Bool-cases (is_empty (trim a))) [
    | inl blank ↦ let stop = rw blank at h in cc (stop)
    | inr full ↦ elim (Option-cases (parse_big_int (trim a))) [
      | inl bad ↦ let stop = rw (full, bad) at h in cc (stop)
      | inr (d, read) ↦ positive_delay-Executes d p (rw (full, read) at h)
    ]
  ]

  pub withdraw_eth_Executes :
      (a value : String) (p : Plan)
      → draft_withdraw_eth v a value ≡ planned p
      → Executes emergency_withdraw_eth p
  unfolding draft_withdraw_eth request_for request
  withdraw_eth_Executes a value p h = elim (Bool-cases (v.is_address a)) [
    | inr bad ↦ cc (rw bad at h)
    | inl ok ↦ elim (Option-cases (parse_amount v.parse_units value 18)) [
      | inl bad ↦ let stop = rw (ok, bad) at h in cc (stop)
      | inr (z, read) ↦ elim (Bool-cases (leb_ℤ z (pos 0))) [
        | inl bad ↦ let stop = rw (ok, read, bad) at h in cc (stop)
        | inr large ↦ by_plan emergency_withdraw_eth (rw (ok, read, large) at h) (
          "EmergencyWithdrawETH",
          refl,
          λ treasury id.
              ("已执行 ETH 紧急提取", rw (address_present a ok, is_empty-to_string z, with_amount_lem z)),
        )
      ]
    ]
  ]
