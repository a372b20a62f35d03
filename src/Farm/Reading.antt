-- ===== src/Farm/Reading.antt =====
-- admin-frontend/src/components/farm: FarmDataReaders.ts, FarmPoolReaders.ts and FarmTreasuryReaders.ts.
-- Reads that the program starts together are taken in their order: where several fail, the
-- failure is that of the first of them.
pub mod Laws
use flux_swap_dex.Common.{
  ℕ, zero, suc, ◌+◌, ◌<◌, String, Bool, List, [], ◌∷◌, Option, none, some, ◌&&◌, ltb, ◌==◌, str_eq,
  map, any, select, length, ◌≡◌, refl, sym, ap, ◌≤◌, ◌∙◌, arith, Bool-cases, inl, inr,
}
use flux_swap_dex.Common.Text.{to_lower_case}
use flux_swap_dex.Api.Values.{Attempt, ok, failed, ◌>>=◌, >>=-eq-ok}
use flux_swap_dex.Farm.{TokenMeta, PoolOption, FarmRow, TreasuryStatus, AdminInfo}
use flux_swap_dex.Farm.Tokens.{TokenReads, read_farm_token_meta, read_lp_pair_options}
use flux_swap_dex.Farm.Edits.{farm_at}

-- `pools(index)` of the manager: address, weight, activity, reward debt, pending rewards.
abbrev pub PoolTuple : Type 0
PoolTuple = String × ℕ × Bool × ℕ × ℕ

-- The calls of the contracts of the manager, the farms and the treasury.
pub record FarmReads : Type 0 where
  pub factory_owner : Attempt String
  pub manager_owner : Attempt String
  pub manager_operator : Attempt String
  pub treasury : Attempt String
  pub reward_token : Attempt String
  pub total_alloc_point : Attempt ℕ
  pub total_pending_rewards : Attempt ℕ
  pub undistributed_rewards : Attempt ℕ
  pub pool_length : Attempt ℕ
  pub pools : ℕ → Attempt PoolTuple
  pub staking_token : String → Attempt String
  pub rewards_token : String → Attempt String
  pub total_staked : String → Attempt ℕ
  pub reward_reserve : String → Attempt ℕ
  pub queued_rewards : String → Attempt ℕ
  pub pending_pool_rewards : String → Attempt ℕ
  pub balance_of : String → String → Attempt ℕ
  pub approved_spend_remaining : String → String → Attempt ℕ
  pub daily_spend_cap : String → String → Attempt ℕ
  pub spent_today : String → String → Attempt ℕ
  pub paused : String → Attempt Bool
  pub multisig : String → Attempt String
  pub operator : String → Attempt String
  pub tokens : TokenReads

pub record FarmAdminSnapshot : Type 0 where
  pub admin_info : AdminInfo
  pub farms : List FarmRow
  pub lp_pair_options : List PoolOption
  pub single_token_options : List PoolOption

-- What the first nine reads give.
pub record ManagerReads : Type 0 where
  pub factory_owner : String
  pub manager_owner : String
  pub manager_operator : String
  pub treasury : String
  pub reward_token : String
  pub total_alloc_point : ℕ
  pub total_pending_rewards : ℕ
  pub undistributed_rewards : ℕ
  pub pool_length : ℕ

-- `result.status === 'fulfilled'`, and the value.
abbrev fulfilled {ℓ} : {A : Type ℓ} → Attempt A → Option A
fulfilled (ok a) = some a
fulfilled (failed e) = none

infixl 5 ◌and_then◌
abbrev ◌and_then◌ {ℓ κ} : {A : Type ℓ} {B : Type κ} → Option A → (A → Option B) → Option B
none and_then f = none
some a and_then f = f a

module _ (r : FarmReads) (wrapped_native : Option String) where
  abbrev pub meta_of : String → TokenMeta
  unfolding read_farm_token_meta
  meta_of token = read_farm_token_meta r.tokens wrapped_native token

  -- Of the seven reads, all or none count.
  unfoldable pub read_farm_treasury_status : String → String → String → Option TreasuryStatus
  read_farm_treasury_status reward_token treasury manager =
      fulfilled (r.balance_of reward_token treasury) and_then λ reward_balance.
      fulfilled (r.approved_spend_remaining reward_token manager) and_then λ approved.
      fulfilled (r.daily_spend_cap treasury reward_token) and_then λ cap.
      fulfilled (r.spent_today treasury reward_token) and_then λ spent.
      fulfilled (r.paused treasury) and_then λ paused.
      fulfilled (r.multisig treasury) and_then λ multisig.
      fulfilled (r.operator treasury) and_then λ operator. some (record {
        paused = paused;
        reward_balance = reward_balance;
        approved_spend_remaining = approved;
        daily_spend_cap = cap;
        spent_today = spent;
        multisig = some multisig;
        operator = some operator;
      })

  unfoldable pub read_farm_row : ℕ → Attempt FarmRow
  unfolding meta_of
  read_farm_row index = do
    (pool, alloc_point, active, reward_debt, pending_rewards) ← r.pools index
    staking ← r.staking_token pool
    rewards ← r.rewards_token pool
    total_staked ← r.total_staked pool
    reward_reserve ← r.reward_reserve pool
    queued_rewards ← r.queued_rewards pool
    manager_pending ← r.pending_pool_rewards pool
    ok (record {
      pid = index;
      pool_address = pool;
      staking_token = meta_of staking;
      reward_token = meta_of rewards;
      active = active;
      alloc_point = alloc_point;
      reward_debt = reward_debt;
      pending_rewards = pending_rewards;
      manager_pending_rewards = manager_pending;
      total_staked = total_staked;
      reward_reserve = reward_reserve;
      queued_rewards = queued_rewards;
    })

  -- The rows of `count` pools from an index on.
  unfoldable pub rows_from : ℕ → ℕ → Attempt (List FarmRow)
  unfolding read_farm_row
  rows_from index zero = ok []
  rows_from index (suc count) = do
    row ← read_farm_row index
    rest ← rows_from (suc index) count
    ok (row ∷ rest)

  unfoldable pub read_farm_rows : ℕ → Attempt (List FarmRow)
  unfolding rows_from
  read_farm_rows pool_count = rows_from 0 pool_count

  -- `configuredSingleTokens.map(…)`, a token being given by its address and symbol.
  unfoldable pub single_option : List String → String × String → PoolOption
  unfolding to_lower_case
  single_option existing (address, symbol) = record {
    address = address;
    label = symbol;
    already_farmed = any (λ e. str_eq e (to_lower_case address)) existing;
  }

  abbrev pub status_error : Option TreasuryStatus → Option String
  status_error none = some "金库状态读取失败，请检查金库合约或 RPC 状态。"
  status_error (some status) = none

  unfoldable pub read_manager : Attempt ManagerReads
  read_manager = do
    factory_owner ← r.factory_owner
    manager_owner ← r.manager_owner
    manager_operator ← r.manager_operator
    treasury ← r.treasury
    reward_token ← r.reward_token
    total_alloc_point ← r.total_alloc_point
    total_pending_rewards ← r.total_pending_rewards
    undistributed_rewards ← r.undistributed_rewards
    pool_length ← r.pool_length
    ok (record {
      factory_owner = factory_owner;
      manager_owner = manager_owner;
      manager_operator = manager_operator;
      treasury = treasury;
      reward_token = reward_token;
      total_alloc_point = total_alloc_point;
      total_pending_rewards = total_pending_rewards;
      undistributed_rewards = undistributed_rewards;
      pool_length = pool_length;
    })

  abbrev pub existing_staking_tokens : List FarmRow → List String
  unfolding to_lower_case
  existing_staking_tokens farms = map (λ f. to_lower_case f.staking_token.address) farms

  unfoldable pub admin_info_of : String → ManagerReads → List FarmRow → AdminInfo
  unfolding read_farm_treasury_status meta_of
  admin_info_of manager m farms =
      let status = read_farm_treasury_status m.reward_token m.treasury manager in
      record {
        factory_owner = some m.factory_owner;
        manager_owner = some m.manager_owner;
        manager_operator = some m.manager_operator;
        treasury = some m.treasury;
        reward_token = some (meta_of m.reward_token);
        total_alloc_point = m.total_alloc_point;
        total_pending_rewards = m.total_pending_rewards;
        undistributed_rewards = m.undistributed_rewards;
        pool_length = m.pool_length;
        active_pool_count = length (select (λ f. f.active && ltb 0 f.alloc_point) farms);
        treasury_status = status;
        treasury_status_error = status_error status;
      }

  unfoldable pub read_farm_admin_snapshot :
      String → Option String → List (String × String) → Attempt FarmAdminSnapshot
  unfolding read_manager read_farm_rows admin_info_of single_option existing_staking_tokens
      read_lp_pair_options
  read_farm_admin_snapshot manager swap_factory configured_single_tokens = do
    m ← read_manager
    farms ← read_farm_rows m.pool_length
    pairs ←
        read_lp_pair_options r.tokens wrapped_native (existing_staking_tokens farms) swap_factory
    ok (record {
      admin_info = admin_info_of manager m farms;
      farms = farms;
      lp_pair_options = pairs;
      single_token_options =
          map (single_option (existing_staking_tokens farms)) configured_single_tokens;
    })
