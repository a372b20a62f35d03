-- ===== src/Farm/Distribution.antt =====
-- admin-frontend/src/components/farm/useFarmDerivedState.ts and useFarmRewardActions.ts: what holds when
-- rewards are distributed.
use flux_swap_dex.Common.{ℕ, ◌+◌, ◌*◌, ◌/◌, ◌≤◌, ◌<◌, true, false, [], Option, none, some, ◌≡◌, ◌⊎◌}
use flux_swap_dex.Common.Int.{pos}
use flux_swap_dex.Farm.{TokenMeta, TreasuryStatus, AdminInfo, reward_precision, present}
use flux_swap_dex.Farm.Actions.{Handled, handle_distribute_rewards}
use flux_swap_dex.Farm.Derived.{
  FarmParams, is_manager_owner, is_manager_operator, empty_weighted_farms,
  distribution_block_reason,
}

-- What the treasury lets the manager take now.
pub record IsPayable (info : AdminInfo) (t : TreasuryStatus) (amount : ℕ) : Type 0 where
  pub in_treasury : amount ≤ t.reward_balance
  pub approved : amount ≤ t.approved_spend_remaining
  pub within_day : (t.daily_spend_cap ≡ 0) ⊎ (amount + t.spent_today ≤ t.daily_spend_cap)
  pub enough_per_weight :
      0 < (amount + info.undistributed_rewards) * reward_precision / info.total_alloc_point

-- A distribution of an amount that the page has checked against what it has read.
pub record IsDistribution (p : FarmParams) (info : AdminInfo) (t : TreasuryStatus) (amount : ℕ)
    : Type 0 where
  pub mounted : p.mounted ≡ true
  pub is_connected : p.is_connected ≡ true
  pub by_manager : (is_manager_owner p ≡ true) ⊎ (is_manager_operator p ≡ true)
  pub read : p.admin_info ≡ some info
  pub manager_present : present p.manager_address ≡ true
  pub token_read : (token : TokenMeta) × (info.reward_token ≡ some token)
  pub has_farms : (0 < info.total_alloc_point) × (0 < info.active_pool_count)
  pub no_empty_farm : empty_weighted_farms p.farms ≡ []
  pub treasury_read : info.treasury_status ≡ some t
  pub not_paused : t.paused ≡ false
  pub parsed : p.parsed_reward_amount ≡ some (pos amount)
  pub some_amount : 0 < amount
  pub payable : IsPayable info t amount

abbrev pub reward_token_of : Option AdminInfo → Option TokenMeta
reward_token_of none = none
reward_token_of (some info) = info.reward_token

-- `rewardToken` of the handler is that of the data read.
abbrev pub handled : FarmParams → Handled
handled p =
    handle_distribute_rewards p.manager_address (reward_token_of p.admin_info)
      (distribution_block_reason p) p.parsed_reward_amount
