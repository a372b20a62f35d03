-- ===== src/Treasury/Plans.antt =====
-- admin-frontend/src/components/treasury/TreasuryOperationDraft.ts: the draft of each kind of operation.
use Prim.Native.String.{◌++◌}
use flux_swap_dex.Common.{String, Bool, not, [], ◌∷◌, Option, none, some, if◌then◌else◌}
use flux_swap_dex.Common.Int.{ℤ, pos, leb_ℤ}
use flux_swap_dex.Common.Text.{trim, is_empty}
use flux_swap_dex.Common.BigInt.{parse_big_int, to_string}
use flux_swap_dex.Amounts.{parse_amount}
use flux_swap_dex.Treasury.Types.{no_params, address, flag, amount}
use flux_swap_dex.Treasury.Utils.{short_address, format_duration}
-- What the code uses of viem.
use flux_swap_dex.Treasury.Forms.{
  Viem, TokenOption, Draft, failed, invalid, allow_word, not_positive, units_of, or_zero, plan,
}

module _ (v : Viem) where
  unfoldable pub draft_allowed_token : Option TokenOption → Bool → Draft
  unfolding invalid
  draft_allowed_token none allowed = invalid "请选择有效的资产。"
  draft_allowed_token (some t) allowed =
      if not (v.is_address t.address)
      then invalid "请选择有效的资产。"
      else plan "hashSetAllowedToken" (address t.address ∷ flag allowed ∷ []) "资产白名单"
          (allow_word allowed ++ " " ++ t.symbol)
          (record no_params {
            token = some t.address;
            token_symbol = some t.symbol;
            allowed = some allowed;
          })

  unfoldable pub draft_allowed_recipient : String → Bool → Draft
  unfolding invalid short_address
  draft_allowed_recipient target allowed =
      if not (v.is_address target)
      then invalid "请输入有效的接收地址。"
      else plan "hashSetAllowedRecipient" (address target ∷ flag allowed ∷ []) "接收方白名单"
          (allow_word allowed ++ " " ++ short_address target)
          (record no_params { recipient = some target; allowed = some allowed })

  unfoldable pub draft_daily_spend_cap : Option TokenOption → String → Draft
  unfolding invalid parse_amount to_string
  draft_daily_spend_cap none value = invalid "请选择有效的资产。"
  draft_daily_spend_cap (some t) value = elim (parse_amount v.parse_units value t.decimals) [
    | none ↦ invalid "请输入有效的每日额度。"
    | some units ↦
        plan "hashSetDailySpendCap" (address t.address ∷ amount units ∷ []) "每日额度"
          (t.symbol ++ " 每日额度设为 " ++ or_zero value)
          (record no_params {
            token = some t.address;
            token_symbol = some t.symbol;
            amount_units = some (to_string units);
            amount_display = some (or_zero value);
          })
  ]

  unfoldable pub draft_revoke_spender : Option TokenOption → String → Draft
  unfolding invalid short_address
  draft_revoke_spender none spender = invalid "请选择资产并输入有效的花费者地址。"
  draft_revoke_spender (some t) spender =
      if not (v.is_address spender)
      then invalid "请选择资产并输入有效的花费者地址。"
      else plan "hashRevokeSpender" (address t.address ∷ address spender ∷ []) "撤销授权"
          ("撤销 " ++ short_address spender ++ " 的 " ++ t.symbol ++ " 授权")
          (record no_params {
            token = some t.address;
            token_symbol = some t.symbol;
            spender = some spender;
          })

  unfoldable pub draft_approve_spender : Option TokenOption → String → String → Draft
  unfolding invalid short_address parse_amount to_string
  draft_approve_spender none spender value = invalid "请选择资产并输入有效的花费者地址。"
  draft_approve_spender (some t) spender value =
      let parsed = parse_amount v.parse_units value t.decimals in
      let units = units_of parsed in
      if not (v.is_address spender)
      then invalid "请选择资产并输入有效的花费者地址。"
      else if not_positive parsed
      then invalid "授权额度必须大于 0。"
      else plan "hashApproveSpender" (address t.address ∷ address spender ∷ amount units ∷ [])
          "授权额度" ("授权 " ++ short_address spender ++ " 可使用 " ++ value ++ " " ++ t.symbol)
          (record no_params {
            token = some t.address;
            token_symbol = some t.symbol;
            spender = some spender;
            amount_units = some (to_string units);
            amount_display = some value;
          })

  unfoldable pub draft_guardian : String → Draft
  unfolding invalid short_address
  draft_guardian target =
      if not (v.is_address target)
      then invalid "请输入有效的新角色地址。"
      else plan "hashSetGuardian" (address target ∷ []) "更新守护者" ("守护者 更新为 " ++ short_address target)
          (record no_params { new_guardian = some target })

  unfoldable pub draft_operator : String → Draft
  unfolding invalid short_address
  draft_operator target =
      if not (v.is_address target)
      then invalid "请输入有效的新角色地址。"
      else plan "hashSetOperator" (address target ∷ []) "更新操作员" ("操作员 更新为 " ++ short_address target)
          (record no_params { new_operator = some target })

  unfoldable pub positive_delay : ℤ → Draft
  unfolding invalid format_duration to_string
  positive_delay delay =
      if leb_ℤ delay (pos 0)
      then invalid "请输入有效的新治理延迟秒数。"
      else plan "hashSetMinDelay" (amount delay ∷ []) "治理延迟" ("治理延迟更新为 " ++ format_duration delay)
          (record no_params { new_min_delay = some (to_string delay) })

  unfoldable pub draft_min_delay : String → Draft
  unfolding positive_delay trim parse_big_int
  draft_min_delay value =
      if is_empty (trim value)
      then invalid "请输入有效的新治理延迟秒数。"
      else elim (parse_big_int (trim value)) [ none ↦ failed | some delay ↦ positive_delay delay ]

  unfoldable pub draft_withdraw : Option TokenOption → String → String → Draft
  unfolding invalid short_address parse_amount to_string
  draft_withdraw none recipient value = invalid "请选择有效的提取资产。"
  draft_withdraw (some t) recipient value =
      let parsed = parse_amount v.parse_units value t.decimals in
      let units = units_of parsed in
      if not (v.is_address recipient)
      then invalid "请输入有效的提取接收地址。"
      else if not_positive parsed
      then invalid "紧急提取数量必须大于 0。"
      else plan "hashEmergencyWithdraw" (address t.address ∷ address recipient ∷ amount units ∷ [])
          "紧急提取" ("提取 " ++ value ++ " " ++ t.symbol ++ " 到 " ++ short_address recipient)
          (record no_params {
            withdraw_token = some t.address;
            withdraw_token_symbol = some t.symbol;
            withdraw_token_decimals = some t.decimals;
            withdraw_recipient = some recipient;
            withdraw_amount_units = some (to_string units);
            withdraw_amount_display = some (value ++ " " ++ t.symbol);
          })

  unfoldable pub draft_withdraw_eth : String → String → Draft
  unfolding invalid short_address parse_amount to_string
  draft_withdraw_eth recipient value =
      let parsed = parse_amount v.parse_units value 18 in
      let units = units_of parsed in
      if not (v.is_address recipient)
      then invalid "请输入有效的 ETH 提取接收地址。"
      else if not_positive parsed
      then invalid "ETH 紧急提取数量必须大于 0。"
      else plan "hashEmergencyWithdrawETH" (address recipient ∷ amount units ∷ []) "紧急提取 ETH"
          ("提取 " ++ value ++ " ETH 到 " ++ short_address recipient)
          (record no_params {
            withdraw_token_symbol = some "ETH";
            withdraw_token_decimals = some 18;
            withdraw_recipient = some recipient;
            withdraw_amount_units = some (to_string units);
            withdraw_amount_display = some (value ++ " ETH");
          })
