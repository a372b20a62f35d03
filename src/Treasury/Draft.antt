-- ===== src/Treasury/Draft.antt =====
-- admin-frontend/src/components/treasury/TreasuryOperationDraft.ts: an operation from the form's texts,
-- with the form of `Forms` and the drafts of `Plans`.
use Prim.Native.String.{◌++◌}
use flux_swap_dex.Common.{ℕ, String, not, ◌||◌, none, some, str_eq, if◌then◌else◌}
use flux_swap_dex.Treasury.Types.{
  Kind, set_allowed_token, set_allowed_recipient, set_daily_spend_cap, approve_spender,
  revoke_spender, set_guardian, set_operator, set_min_delay, emergency_withdraw,
  emergency_withdraw_eth, Metadata, Call, Notice, Promised, resolved, rejected, present, given,
}
-- What the code uses of viem.
use flux_swap_dex.Treasury.Forms.{
  Viem, Form, Plan, Draft, refused, failed, planned, delay_of, too_short, shown_delay,
}
use flux_swap_dex.Treasury.Plans.{
  draft_allowed_token, draft_allowed_recipient, draft_daily_spend_cap, draft_revoke_spender,
  draft_approve_spender, draft_guardian, draft_operator, draft_min_delay, draft_withdraw,
  draft_withdraw_eth,
}

module _ (v : Viem) where
  unfoldable pub draft_of : Kind → Form → Draft
  draft_of set_allowed_token f =
      draft_allowed_token v f.selected_token (str_eq f.boolean_value "true")
  draft_of set_allowed_recipient f =
      draft_allowed_recipient v f.target_address (str_eq f.boolean_value "true")
  draft_of set_daily_spend_cap f = draft_daily_spend_cap v f.selected_token f.amount_value
  draft_of approve_spender f =
      draft_approve_spender v f.selected_token f.spender_address f.amount_value
  draft_of revoke_spender f = draft_revoke_spender v f.selected_token f.spender_address
  draft_of set_guardian f = draft_guardian v f.target_address
  draft_of set_operator f = draft_operator v f.target_address
  draft_of set_min_delay f = draft_min_delay v f.new_min_delay_value
  draft_of emergency_withdraw f =
      draft_withdraw v f.selected_token f.withdraw_recipient_address f.withdraw_amount_value
  draft_of emergency_withdraw_eth f =
      draft_withdraw_eth v f.withdraw_recipient_address f.withdraw_amount_value

  unfoldable pub checked_draft : Form → Draft
  unfolding delay_of too_short shown_delay
  checked_draft f = elim (delay_of f) [
    | none ↦ failed
    | some delay ↦
        if too_short delay f.treasury_min_delay
        then refused (record {
          title = "延迟时间无效";
          message = "延迟时间不能小于当前治理延迟：" ++ shown_delay f.treasury_min_delay ++ "。";
        })
        else draft_of f.operation_kind f
  ]

  unfoldable pub prepare : Form → Draft
  unfolding checked_draft
  prepare f =
      if not f.has_client || not (present f.treasury_address)
      then refused (record { title = "暂无法创建操作"; message = "金库合约信息尚未加载完成。" })
      else checked_draft f

-- What the caller gets: the draft's metadata, a notice and `null`, or a rejected promise.
pub data Outcome : Type 0 where
  drafted : Metadata → Outcome
  notified : Notice → Outcome
  thrown : Outcome

unfoldable pub metadata_of : Form → ℕ → Plan → String → Metadata
metadata_of f now p id = record {
  version = 1;
  chain_id = f.chain_id;
  treasury_address = given f.treasury_address;
  operation_id = id;
  kind = f.operation_kind;
  label = p.label;
  summary = p.summary;
  params = p.params;
  created_at = now;
}

-- `readContract` asks the treasury for the operation's id.
unfoldable pub completed : Form → ℕ → (Call → Promised String) → Draft → Outcome
unfolding metadata_of
completed f now read (refused notice) = notified notice
completed f now read failed = thrown
completed f now read (planned p) =
    elim (read
      (record { to = given f.treasury_address; function_name = p.function_name; args = p.args })) [
        | rejected _ ↦ thrown
        | resolved id ↦ drafted (metadata_of f now p id)
      ]

unfoldable pub build_treasury_operation_draft : Viem → (Call → Promised String) → ℕ → Form → Outcome
unfolding prepare completed
build_treasury_operation_draft v read now f = completed f now read (prepare v f)
