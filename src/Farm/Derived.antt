-- ===== src/Farm/Derived.antt =====
-- admin-frontend/src/components/farm/useFarmDerivedState.ts
use Prim.Native.String.{◌++◌}
use flux_swap_dex.Common.{
  ℕ, suc, ◌+◌, ◌-◌, ◌*◌, ◌/◌, String, Bool, true, false, List, [], ◌∷◌, Option, none, some,
  if◌then◌else◌, ◌&&◌, ◌||◌, not, leb, ltb, select, length,
}
use flux_swap_dex.Common.Int.{ℤ, pos}
use flux_swap_dex.Common.BigInt.{nat_to_string}
use flux_swap_dex.Common.Text.{trim, to_lower_case, is_empty, includes}
use flux_swap_dex.Treasury.Utils.{same_address}
use flux_swap_dex.Farm.{FarmRow, TreasuryStatus, AdminInfo, reward_precision, present}

pub record FarmParams : Type 0 where
  pub address : Option String
  pub admin_info : Option AdminInfo
  pub farms : List FarmRow
  pub mounted : Bool
  pub is_connected : Bool
  pub manager_address : Option String
  pub factory_address : Option String
  pub search_query : String
  pub active_only : Bool
  pub parsed_reward_amount : Option ℤ

abbrev info_text : (AdminInfo → Option String) → Option AdminInfo → Option String
info_text part none = none
info_text part (some info) = part info

unfoldable pub is_factory_owner : FarmParams → Bool
unfolding same_address
is_factory_owner p = same_address p.address (info_text (λ i. i.factory_owner) p.admin_info)

unfoldable pub is_manager_owner : FarmParams → Bool
unfolding same_address
is_manager_owner p = same_address p.address (info_text (λ i. i.manager_owner) p.admin_info)

unfoldable pub is_manager_operator : FarmParams → Bool
unfolding same_address
is_manager_operator p = same_address p.address (info_text (λ i. i.manager_operator) p.admin_info)

unfoldable pub can_create_pool : FarmParams → Bool
unfolding is_factory_owner
can_create_pool p = p.mounted && p.is_connected && is_factory_owner p && present p.factory_address

unfoldable pub can_update_pool : FarmParams → Bool
unfolding is_manager_owner
can_update_pool p = p.mounted && p.is_connected && is_manager_owner p && present p.manager_address

unfoldable pub can_distribute : FarmParams → Bool
unfolding is_manager_owner is_manager_operator
can_distribute p =
    p.mounted
    && p.is_connected
    && (is_manager_owner p || is_manager_operator p)
    && present p.manager_address

unfoldable pub active_farm_count : List FarmRow → ℕ
active_farm_count farms = length (select (λ f. f.active) farms)

unfoldable pub empty_weighted_farms : List FarmRow → List FarmRow
empty_weighted_farms farms =
    select (λ f. f.active && ltb 0 f.alloc_point && leb f.total_staked 0) farms

-- `none` is `undefined`: no cap.
unfoldable pub daily_spend_remaining : Option TreasuryStatus → Option ℕ
daily_spend_remaining none = none
daily_spend_remaining (some t) =
    if leb t.daily_spend_cap 0
    then none
    else some (if ltb t.spent_today t.daily_spend_cap then t.daily_spend_cap - t.spent_today else 0)

-- The labels of the first two, joined, and how many there are if there are more.
unfoldable pub empty_farms_message : List FarmRow → String
unfolding nat_to_string
empty_farms_message farms =
    "存在无人质押但仍有权重的农场："
    ++ first_two farms
    ++ (if ltb 2 (length farms) then " 等 " ++ nat_to_string (length farms) ++ " 个" else "")
    ++ "。请先停用或把权重调为 0，避免奖励进入空池。"
  where
    first_two : List FarmRow → String
    first_two [] = ""
    first_two (f ∷ []) = f.staking_token.label
    first_two (f ∷ g ∷ rest) = f.staking_token.label ++ "、" ++ g.staking_token.label

unfoldable pub over_remaining : Option ℕ → ℕ → Bool
over_remaining none amount = false
over_remaining (some remaining) amount = ltb remaining amount

unfoldable pub amount_block_reason : AdminInfo → TreasuryStatus → ℕ → Option String
unfolding over_remaining daily_spend_remaining
amount_block_reason info t amount =
    if ltb t.reward_balance amount
    then some "金库奖励代币余额不足。"
    else if ltb t.approved_spend_remaining amount
    then some "金库授权给管理合约的可拉取额度不足。"
    else if over_remaining (daily_spend_remaining (some t)) amount
    then some "本日金库支出剩余额度不足。"
    else if leb ((amount + info.undistributed_rewards) * reward_precision / info.total_alloc_point)
        0
    then some "本次奖励数量太小，按当前总权重分配后会被链上拒绝。"
    else none

-- `!parsedRewardAmount || parsedRewardAmount <= 0`, and then the amount
unfoldable pub parsed_block_reason : AdminInfo → TreasuryStatus → Option ℤ → Option String
unfolding amount_block_reason
parsed_block_reason info t (some (pos (suc n))) = amount_block_reason info t (suc n)
parsed_block_reason info t _ = some "请输入大于 0 的奖励数量。"

abbrev or_loading : Option String → String
or_loading none = "金库状态尚未加载完成。"
or_loading (some error) = error

unfoldable pub treasury_block_reason : AdminInfo → Option ℤ → Option String
unfolding parsed_block_reason
treasury_block_reason info parsed =
    if present info.treasury_status_error
    then some (or_loading info.treasury_status_error)
    else elim info.treasury_status [
      | none ↦ some (or_loading info.treasury_status_error)
      | some t ↦ if t.paused then some "金库当前处于暂停状态，暂时不能拉取奖励。" else parsed_block_reason info t parsed
    ]

unfoldable pub info_block_reason : AdminInfo → List FarmRow → Option ℤ → Option String
unfolding empty_weighted_farms empty_farms_message treasury_block_reason
info_block_reason info farms parsed =
    if leb info.total_alloc_point 0 || leb info.active_pool_count 0
    then some "暂无可分发农场，请先创建并启用质押池。"
    else if ltb 0 (length (empty_weighted_farms farms))
    then some (empty_farms_message (empty_weighted_farms farms))
    else treasury_block_reason info parsed

unfoldable pub loaded_block_reason : FarmParams → Option AdminInfo → Option String
unfolding info_block_reason
loaded_block_reason p none = some "奖励合约信息尚未加载完成。"
loaded_block_reason p (some info) = elim info.reward_token [
  | none ↦ some "奖励合约信息尚未加载完成。"
  | some token ↦ info_block_reason info p.farms p.parsed_reward_amount
]

-- `distributionBlockReason`; `none` is `null`.
unfoldable pub distribution_block_reason : FarmParams → Option String
unfolding is_manager_owner is_manager_operator loaded_block_reason
distribution_block_reason p =
    if not p.mounted
    then some "页面正在初始化。"
    else if not p.is_connected
    then some "请先连接钱包。"
    else if not (is_manager_owner p) && not (is_manager_operator p)
    then some "当前钱包不是管理合约的所有者或操作员，不能分发奖励。"
    else if not (present p.manager_address)
    then some "奖励合约信息尚未加载完成。"
    else loaded_block_reason p p.admin_info

abbrev pub is_none : Option String → Bool
is_none none = true
is_none (some reason) = false

unfoldable pub can_submit_distribution : FarmParams → Bool
unfolding can_distribute distribution_block_reason
can_submit_distribution p = can_distribute p && is_none (distribution_block_reason p)

unfoldable pub filtered_farms : FarmParams → List FarmRow
unfolding trim to_lower_case includes
filtered_farms p =
    let query = to_lower_case (trim p.search_query) in
    select
      (λ f.
        not (p.active_only && not f.active)
        && (is_empty query
            || includes (to_lower_case f.staking_token.label) query
            || includes (to_lower_case f.pool_address) query
            || includes (to_lower_case f.staking_token.address) query))
      p.farms
