-- ===== src/Treasury/Execution.antt =====
-- admin-frontend/src/components/treasury/TreasuryOperationExecution.ts: the transaction that executes
-- a recorded operation.
use flux_swap_dex.Common.{String, Bool, ◌&&◌, List, [], ◌∷◌, Option, none, some, if◌then◌else◌}
use flux_swap_dex.Common.Int.{ℤ}
use flux_swap_dex.Common.BigInt.{parse_big_int}
use flux_swap_dex.Treasury.Types.{
  Kind, set_allowed_token, set_allowed_recipient, set_daily_spend_cap, approve_spender,
  revoke_spender, set_guardian, set_operator, set_min_delay, emergency_withdraw,
  emergency_withdraw_eth, Params, Metadata, Arg, address, hash, flag, amount, Call, Promised,
  resolved, rejected, present, given, is_some, given_flag,
}

-- The title of the transaction, and what it calls: an amount that is no number throws.
pub record Request : Type 0 where
  pub title : String
  pub tx : Promised Call

-- `BigInt(text)` among the arguments of a call.
unfoldable pub with_amount : String → (ℤ → Call) → Promised Call
with_amount text call = elim (parse_big_int text) [
  | none ↦ rejected "SyntaxError"
  | some n ↦ resolved (call n)
]

module _ (treasury operation_id : String) where
  abbrev call : String → List Arg → Call
  call name args = record { to = treasury; function_name = name; args = args }

  unfoldable pub request : Bool → String → Promised Call → Option Request
  request ok title tx = if ok then some (record { title = title; tx = tx }) else none

  unfoldable pub request_for : Kind → Params → Option Request
  unfolding request with_amount
  request_for set_allowed_token p = request (present p.token && is_some p.allowed) "已更新资产白名单" (
      resolved (
        call "executeSetAllowedToken"
          (address (given p.token) ∷ flag (given_flag p.allowed) ∷ hash operation_id ∷ [])))
  request_for set_allowed_recipient p =
      request (present p.recipient && is_some p.allowed) "已更新接收方白名单" (
        resolved (
          call "executeSetAllowedRecipient"
            (address (given p.recipient) ∷ flag (given_flag p.allowed) ∷ hash operation_id ∷ [])))
  request_for set_daily_spend_cap p =
      request (present p.token && is_some p.amount_units) "已更新每日额度" (
        with_amount (given p.amount_units) λ n.
          call "executeSetDailySpendCap"
            (address (given p.token) ∷ amount n ∷ hash operation_id ∷ []))
  request_for approve_spender p =
      request (present p.token && present p.spender && present p.amount_units) "已更新授权额度" (
        with_amount (given p.amount_units) λ n.
          call "executeApproveSpender" (
            address (given p.token)
            ∷ address (given p.spender)
            ∷ amount n
            ∷ hash operation_id
            ∷ []))
  request_for revoke_spender p = request (present p.token && present p.spender) "已撤销授权额度" (
      resolved (
        call "executeRevokeSpender"
          (address (given p.token) ∷ address (given p.spender) ∷ hash operation_id ∷ [])))
  request_for set_guardian p = request (present p.new_guardian) "已更新守护者" (
      resolved
        (call "executeSetGuardian" (address (given p.new_guardian) ∷ hash operation_id ∷ [])))
  request_for set_operator p = request (present p.new_operator) "已更新操作员" (
      resolved
        (call "executeSetOperator" (address (given p.new_operator) ∷ hash operation_id ∷ [])))
  request_for set_min_delay p = request (present p.new_min_delay) "已更新治理延迟" (
      with_amount (given p.new_min_delay)
        λ n. call "executeSetMinDelay" (amount n ∷ hash operation_id ∷ []))
  request_for emergency_withdraw p =
      request
        (present p.withdraw_token
          && present p.withdraw_recipient
          && present p.withdraw_amount_units)
        "已执行紧急提取"
        (with_amount (given p.withdraw_amount_units) λ n. call "executeEmergencyWithdraw" (
          address (given p.withdraw_token)
          ∷ address (given p.withdraw_recipient)
          ∷ amount n
          ∷ hash operation_id
          ∷ []))
  request_for emergency_withdraw_eth p =
      request (present p.withdraw_recipient && present p.withdraw_amount_units) "已执行 ETH 紧急提取" (
        with_amount (given p.withdraw_amount_units) λ n.
          call "executeEmergencyWithdrawETH"
            (address (given p.withdraw_recipient) ∷ amount n ∷ hash operation_id ∷ []))

  unfoldable pub build_treasury_execution_request : Metadata → Option Request
  unfolding request_for
  build_treasury_execution_request metadata = request_for metadata.kind metadata.params
