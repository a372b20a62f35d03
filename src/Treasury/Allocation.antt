-- ===== src/Treasury/Allocation.antt =====
-- admin-frontend/src/components/treasury/TreasuryAllocationSubmit.ts: paying out of the treasury.
pub mod Payouts
use flux_swap_dex.Common.{
  ℕ, String, Bool, true, false, not, ◌||◌, ◌&&◌, List, [], ◌∷◌, Option, none, some, if◌then◌else◌,
}
use flux_swap_dex.Common.Int.{ℤ, pos, ◌+ℤ◌, ltb_ℤ, leb_ℤ}
use flux_swap_dex.Amounts.{parse_amount}
use flux_swap_dex.Treasury.Types.{
  TokenRow, Arg, address, amount, Call, Notice, Promised, resolved, rejected, present, given,
  given_flag,
}
use flux_swap_dex.Treasury.Forms.{Viem, not_positive, units_of}

pub record Request : Type 0 where
  pub treasury_address : Option String
  pub selected_token : Option TokenRow
  pub has_client : Bool
  pub mounted : Bool
  pub is_connected : Bool
  pub can_allocate : Bool
  pub paused : Option Bool
  pub recipient_address : String
  pub amount_value : String

-- What comes of it: a notice, the connect dialog, a failed read, or a transaction.
pub data Outcome : Type 0 where
  notified : Notice → Outcome
  connect : Outcome
  thrown : Outcome
  transaction : Call → Outcome

notice : String → String → Outcome
notice title message = notified (record { title = title; message = message })

unfoldable pub allocate_call : String → TokenRow → String → ℤ → Call
allocate_call treasury t recipient units =
    if given_flag t.is_native
    then record {
      to = treasury;
      function_name = "allocateETH";
      args = address recipient ∷ amount units ∷ [];
    }
    else record {
      to = treasury;
      function_name = "allocate";
      args = address t.address ∷ address recipient ∷ amount units ∷ [];
    }

-- `selectedToken.dailySpendCap > 0 && selectedToken.spentToday + amountUnits > selectedToken.dailySpendCap`
over_cap : TokenRow → ℤ → Bool
unfolding ◌+ℤ◌
over_cap t units =
    ltb_ℤ (pos 0) t.daily_spend_cap && ltb_ℤ t.daily_spend_cap (t.spent_today +ℤ units)

module _ (v : Viem) (allowed_recipient : Call → Promised Bool) where
  -- The last check: the contract must allow the recipient.
  finish : String → TokenRow → String → ℤ → Outcome
  unfolding notice allocate_call
  finish treasury t recipient units =
      elim (allowed_recipient (record {
        to = treasury;
        function_name = "allowedRecipients";
        args = address recipient ∷ [];
      })) [
        | rejected _ ↦ thrown
        | resolved false ↦ notice "划拨失败" "请先通过治理操作把该接收地址加入白名单，再执行划拨。"
        | resolved true ↦ transaction (allocate_call treasury t recipient units)
      ]

  checked : String → TokenRow → Request → Outcome
  unfolding finish over_cap notice parse_amount
  checked treasury t r =
      let parsed = parse_amount v.parse_units r.amount_value t.decimals in
      let units = units_of parsed in
      if not r.mounted || not r.is_connected
      then connect
      else if not r.can_allocate
      then notice "暂无法划拨" (if given_flag r.paused then "金库当前已暂停，不能执行资产划拨。" else "只有操作员或多签钱包可以划拨资产。")
      else if not (v.is_address r.recipient_address)
      then notice "参数无效" "请输入有效的划拨接收地址。"
      else if not_positive parsed
      then notice "参数无效" "划拨数量必须大于 0。"
      else if ltb_ℤ t.balance units
      then notice "划拨失败" "划拨数量不能超过当前金库余额。"
      else if over_cap t units
      then notice "划拨失败" "本次划拨会超过该资产今日剩余额度。"
      else finish treasury t r.recipient_address units

  with_token : Option TokenRow → Request → Outcome
  unfolding checked notice
  with_token none r = notice "暂无法划拨" "金库资产信息尚未加载完成。"
  with_token (some t) r =
      if not (present r.treasury_address) || not r.has_client
      then notice "暂无法划拨" "金库资产信息尚未加载完成。"
      else checked (given r.treasury_address) t r

  unfoldable pub submit_treasury_allocation : Request → Outcome
  unfolding with_token
  submit_treasury_allocation r = with_token r.selected_token r
