-- ===== src/Treasury/TokenOperations.antt =====
-- Each drafted operation on a token can be executed, and so can each drafted operation.
use flux_swap_dex.Common.{
  String, false, Option, none, some, ◌≡◌, refl, Bool-cases, Option-cases, inl, inr,
}
use flux_swap_dex.Common.Int.{pos, leb_ℤ}
use flux_swap_dex.Common.Text.{is_empty}
use flux_swap_dex.Common.BigInt.RoundTrip.{is_empty-to_string}
use flux_swap_dex.Amounts.{parse_amount}
use flux_swap_dex.Treasury.Types.{
  Kind, set_allowed_token, set_allowed_recipient, set_daily_spend_cap, approve_spender,
  revoke_spender, set_guardian, set_operator, set_min_delay, emergency_withdraw,
  emergency_withdraw_eth,
}
use flux_swap_dex.Treasury.Draft.{draft_of}
use flux_swap_dex.Treasury.Forms.{Viem, TokenOption, Form, Plan, planned}
use flux_swap_dex.Treasury.Plans.{
  draft_daily_spend_cap, draft_revoke_spender, draft_approve_spender, draft_withdraw,
}
use flux_swap_dex.Treasury.Execution.{request_for, request}
use flux_swap_dex.Treasury.Executable.{
  Executes, by_plan, with_amount_lem, address_present, allowed_token_Executes,
  allowed_recipient_Executes, guardian_Executes, operator_Executes, min_delay_Executes,
  withdraw_eth_Executes,
}

-- The operations on a token, for one whose address is no empty text.
module _ (v : Viem) (strict : v.is_address "" ≡ false) (t : TokenOption)
    (has_address : is_empty t.address ≡ false) where
  daily_spend_cap_Executes :
      (value : String) (p : Plan)
      → draft_daily_spend_cap v (some t) value ≡ planned p
      → Executes set_daily_spend_cap p
  unfolding draft_daily_spend_cap request_for request
  daily_spend_cap_Executes value p h =
      elim (Option-cases (parse_amount v.parse_units value t.decimals)) [
        | inl bad ↦ let stop = rw (bad, draft_daily_spend_cap) at h in cc (stop)
        | inr (z, read) ↦ by_plan set_daily_spend_cap (rw (read, draft_daily_spend_cap) at h) (
          "SetDailySpendCap",
          refl,
          λ treasury id. ("已更新每日额度", rw (has_address, with_amount_lem z)),
        )
      ]

  revoke_spender_Executes :
      (a : String) (p : Plan)
      → draft_revoke_spender v (some t) a ≡ planned p
      → Executes revoke_spender p
  unfolding draft_revoke_spender request_for request
  revoke_spender_Executes a p h = elim (Bool-cases (v.is_address a)) [
    | inr bad ↦ cc (rw bad at h)
    | inl ok ↦ by_plan revoke_spender (rw ok at h) (
      "RevokeSpender",
      refl,
      λ treasury id. ("已撤销授权额度", rw (has_address, address_present v strict a ok)),
    )
  ]

  approve_spender_Executes :
      (a value : String) (p : Plan)
      → draft_approve_spender v (some t) a value ≡ planned p
      → Executes approve_spender p
  unfolding draft_approve_spender request_for request
  approve_spender_Executes a value p h = elim (Bool-cases (v.is_address a)) [
    | inr bad ↦ cc (rw bad at h)
    | inl ok ↦ elim (Option-cases (parse_amount v.parse_units value t.decimals)) [
      | inl bad ↦ let stop = rw (ok, bad) at h in cc (stop)
      | inr (z, read) ↦ elim (Bool-cases (leb_ℤ z (pos 0))) [
        | inl bad ↦ let stop = rw (ok, read, bad) at h in cc (stop)
        | inr large ↦ by_plan approve_spender (rw (ok, read, large) at h) (
          "ApproveSpender",
          refl,
          λ treasury id. (
            "已更新授权额度",
            rw (
              has_address,
              address_present v strict a ok,
              is_empty-to_string z,
              with_amount_lem z,
            ),
          ),
        )
      ]
    ]
  ]

  withdraw_Executes :
      (a value : String) (p : Plan)
      → draft_withdraw v (some t) a value ≡ planned p
      → Executes emergency_withdraw p
  unfolding draft_withdraw request_for request
  withdraw_Executes a value p h = elim (Bool-cases (v.is_address a)) [
    | inr bad ↦ cc (rw bad at h)
    | inl ok ↦ elim (Option-cases (parse_amount v.parse_units value t.decimals)) [
      | inl bad ↦ let stop = rw (ok, bad) at h in cc (stop)
      | inr (z, read) ↦ elim (Bool-cases (leb_ℤ z (pos 0))) [
        | inl bad ↦ let stop = rw (ok, read, bad) at h in cc (stop)
        | inr large ↦ by_plan emergency_withdraw (rw (ok, read, large) at h) (
          "EmergencyWithdraw",
          refl,
          λ treasury id. (
            "已执行紧急提取",
            rw (
              has_address,
              address_present v strict a ok,
              is_empty-to_string z,
              with_amount_lem z,
            ),
          ),
        )
      ]
    ]
  ]

-- A selected token has an address.
abbrev pub HasAddress : Option TokenOption → Type 0
HasAddress none = Unit
HasAddress (some t) = is_empty t.address ≡ false

module _ (v : Viem) (strict : v.is_address "" ≡ false) where
  daily_spend_cap_any :
      (t : Option TokenOption) (value : String) (p : Plan)
      → HasAddress t
      → draft_daily_spend_cap v t value ≡ planned p
      → Executes set_daily_spend_cap p
  unfolding draft_daily_spend_cap
  daily_spend_cap_any none value p has h = cc
  daily_spend_cap_any (some t) value p has h = daily_spend_cap_Executes v strict t has value p h

  revoke_spender_any :
      (t : Option TokenOption) (a : String) (p : Plan)
      → HasAddress t
      → draft_revoke_spender v t a ≡ planned p
      → Executes revoke_spender p
  unfolding draft_revoke_spender
  revoke_spender_any none a p has h = cc
  revoke_spender_any (some t) a p has h = revoke_spender_Executes v strict t has a p h

  approve_spender_any :
      (t : Option TokenOption) (a value : String) (p : Plan)
      → HasAddress t
      → draft_approve_spender v t a value ≡ planned p
      → Executes approve_spender p
  unfolding draft_approve_spender
  approve_spender_any none a value p has h = cc
  approve_spender_any (some t) a value p has h = approve_spender_Executes v strict t has a value p h

  withdraw_any :
      (t : Option TokenOption) (a value : String) (p : Plan)
      → HasAddress t
      → draft_withdraw v t a value ≡ planned p
      → Executes emergency_withdraw p
  unfolding draft_withdraw
  withdraw_any none a value p has h = cc
  withdraw_any (some t) a value p has h = withdraw_Executes v strict t has a value p h

  -- Whatever kind of operation is planned, it can be executed.
  pub draft_of-Executes :
      (k : Kind) (f : Form) (p : Plan)
      → HasAddress f.selected_token
      → draft_of v k f ≡ planned p
      → Executes k p
  unfolding draft_of
  draft_of-Executes set_allowed_token f p has h = allowed_token_Executes v strict _ _ p h
  draft_of-Executes set_allowed_recipient f p has h = allowed_recipient_Executes v strict _ _ p h
  draft_of-Executes set_daily_spend_cap f p has h =
      daily_spend_cap_any f.selected_token f.amount_value p has h
  draft_of-Executes approve_spender f p has h =
      approve_spender_any f.selected_token f.spender_address f.amount_value p has h
  draft_of-Executes revoke_spender f p has h =
      revoke_spender_any f.selected_token f.spender_address p has h
  draft_of-Executes set_guardian f p has h = guardian_Executes v strict _ p h
  draft_of-Executes set_operator f p has h = operator_Executes v strict _ p h
  draft_of-Executes set_min_delay f p has h = min_delay_Executes v strict _ p h
  draft_of-Executes emergency_withdraw f p has h =
      withdraw_any f.selected_token f.withdraw_recipient_address f.withdraw_amount_value p has h
  draft_of-Executes emergency_withdraw_eth f p has h = withdraw_eth_Executes v strict _ _ p h
