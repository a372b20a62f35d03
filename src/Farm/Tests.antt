-- ===== src/Farm/Tests.antt =====
-- A manager's owner who loads one farm, updates it and distributes rewards.
use flux_swap_dex.Common.{ℕ, String, true, false, [], ◌∷◌, none, some, ◌≡◌, refl, arith}
use flux_swap_dex.Common.Int.{pos}
use flux_swap_dex.Api.Values.{ok, throw}
use flux_swap_dex.Farm.{TokenMeta, FarmRow, TreasuryStatus, AdminInfo}
use flux_swap_dex.Farm.Derived.{FarmParams}
use flux_swap_dex.Farm.Actions.{
  refused, runs, update, set_pool, handle_update_pool, handle_create_lp_pool, edit_of,
}
use flux_swap_dex.Farm.Edits.{sync_pool_edits, farm_at}
use flux_swap_dex.Farm.Tokens.{TokenReads}
use flux_swap_dex.Farm.Reading.{PoolTuple, FarmReads, FarmAdminSnapshot}
use flux_swap_dex.Farm.Updates.{handle_update_pool-sync_pool_edits}

abbrev token : TokenMeta
token = record { address = "0xT"; label = "FLUX/ETH"; symbol = "LP"; decimals = 18; is_lp = true }

abbrev farm : FarmRow
farm = record {
  pid = 3;
  pool_address = "0xPool";
  staking_token = token;
  reward_token = token;
  active = true;
  alloc_point = 250;
  reward_debt = 0;
  pending_rewards = 0;
  manager_pending_rewards = 0;
  total_staked = 7;
  reward_reserve = 0;
  queued_rewards = 0;
}

abbrev status : TreasuryStatus
status = record {
  paused = false;
  reward_balance = 100;
  approved_spend_remaining = 60;
  daily_spend_cap = 50;
  spent_today = 10;
  multisig = none;
  operator = none;
}

abbrev info : AdminInfo
info = record {
  factory_owner = none;
  manager_owner = some "0xME";
  manager_operator = none;
  treasury = none;
  reward_token = some token;
  total_alloc_point = 250;
  total_pending_rewards = 0;
  undistributed_rewards = 0;
  pool_length = 1;
  active_pool_count = 1;
  treasury_status = some status;
  treasury_status_error = none;
}

abbrev paying : ℕ → FarmParams
paying amount = record {
  address = some "0xme";
  admin_info = some info;
  farms = farm ∷ [];
  mounted = true;
  is_connected = true;
  manager_address = some "0xManager";
  factory_address = none;
  search_query = " flux";
  active_only = true;
  parsed_reward_amount = some (pos amount);
}

farmed_refused :
    handle_create_lp_pool
      (λ s. true)
      (some "0xF")
      "0xa"
      "1"
      true
      (record { address = "0xA"; label = "A"; already_farmed = true } ∷ [])
    ≡ refused "创建失败" "A 已经创建过质押池。"
unfolding handle_create_lp_pool
farmed_refused = refl

handle_update_pool-sync_pool_edits_example :
    handle_update_pool (some "0xManager") (sync_pool_edits (farm ∷ []) []) farm
    ≡ runs (update 3) "已更新农场配置" (set_pool "0xManager" 3 250 true)
handle_update_pool-sync_pool_edits_example =
    handle_update_pool-sync_pool_edits "0xManager" (farm ∷ []) [] farm refl (unfold edit_of in refl)
      (unfold farm_at in refl) (omega arith)

abbrev the_pool : PoolTuple
the_pool = ("0xPool", 250, true, 0, 0)

abbrev chain_tokens : TokenReads
chain_tokens = record {
  token0 = λ t. throw "not a pair";
  token1 = λ t. throw "not a pair";
  decimals = λ t. ok 6;
  symbol = λ t. ok "FLUX";
  all_pairs_length = λ f. ok 0;
  all_pairs = λ f n. throw "no pair";
}

abbrev reads : FarmReads
reads = record {
  factory_owner = ok "0xF";
  manager_owner = ok "0xME";
  manager_operator = ok "0xO";
  treasury = ok "0xTr";
  reward_token = ok "0xR";
  total_alloc_point = ok 250;
  total_pending_rewards = ok 0;
  undistributed_rewards = ok 0;
  pool_length = ok 1;
  pools = λ n. ok the_pool;
  staking_token = λ p. ok "0xT";
  rewards_token = λ p. ok "0xR";
  total_staked = λ p. ok 7;
  reward_reserve = λ p. ok 0;
  queued_rewards = λ p. ok 0;
  pending_pool_rewards = λ p. ok 0;
  balance_of = λ t a. ok 100;
  approved_spend_remaining = λ t a. ok 60;
  daily_spend_cap = λ t a. ok 50;
  spent_today = λ t a. throw "timeout";
  paused = λ t. ok false;
  multisig = λ t. ok "0xM";
  operator = λ t. ok "0xO";
  tokens = chain_tokens;
}

abbrev flux : String → TokenMeta
flux address = record {
  address = address;
  label = "FLUX";
  symbol = "FLUX";
  decimals = 6;
  is_lp = false;
}

abbrev read_row : FarmRow
read_row = record {
  pid = 0;
  pool_address = "0xPool";
  staking_token = flux "0xT";
  reward_token = flux "0xR";
  active = true;
  alloc_point = 250;
  reward_debt = 0;
  pending_rewards = 0;
  manager_pending_rewards = 0;
  total_staked = 7;
  reward_reserve = 0;
  queued_rewards = 0;
}

-- One read of the treasury has failed.
abbrev snapshot : FarmAdminSnapshot
snapshot = record {
  admin_info = record {
    factory_owner = some "0xF";
    manager_owner = some "0xME";
    manager_operator = some "0xO";
    treasury = some "0xTr";
    reward_token = some (flux "0xR");
    total_alloc_point = 250;
    total_pending_rewards = 0;
    undistributed_rewards = 0;
    pool_length = 1;
    active_pool_count = 1;
    treasury_status = none;
    treasury_status_error = some "金库状态读取失败，请检查金库合约或 RPC 状态。";
  };
  farms = read_row ∷ [];
  lp_pair_options = [];
  single_token_options = record { address = "0xt"; label = "FLUX"; already_farmed = true } ∷ [];
}
