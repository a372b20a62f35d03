-- ===== src/Farm/Actions.antt =====
-- admin-frontend/src/components/farm: useFarmCreatePoolActions.ts, useFarmUpdatePoolActions.ts,
-- useFarmRewardActions.ts and useFarmTransactionRunner.ts.
use Prim.Native.String.{◌++◌}
use flux_swap_dex.Common.{
  ℕ, String, Bool, true, false, List, [], ◌∷◌, Option, none, some, if◌then◌else◌, not, find_first,
  ◌==◌, ◌||◌,
}
use flux_swap_dex.Common.Int.{ℤ, pos}
use flux_swap_dex.Treasury.Utils.{same_address, short_address}
use flux_swap_dex.Api.Values.{Attempt, ok, failed, Failure}
use flux_swap_dex.Farm.{TokenMeta, PoolOption, FarmRow, parse_alloc_point, present}

pub data ActiveAction : Type 0 where
  create_lp create_single distribute : ActiveAction
  update : ℕ → ActiveAction

-- A call of `writeContractAsync`: its address, function and arguments.
pub data ContractCall : Type 0 where
  create_lp_pool create_single_token_pool :
      (factory token : String) → (alloc_point : ℕ) → (active : Bool) → ContractCall
  set_pool : (manager : String) → (pid alloc_point : ℕ) → (active : Bool) → ContractCall
  distribute_rewards : (manager : String) → (amount : ℤ) → ContractCall

-- What a handler does: nothing, it shows an error, or it runs a transaction.
pub data Handled : Type 0 where
  ignored : Handled
  refused : (title message : String) → Handled
  runs : ActiveAction → (title : String) → ContractCall → Handled

pub record Edit : Type 0 where
  pub alloc_point : String
  pub active : Bool

-- `poolEdits`, by the pools' ids
abbrev pub FarmPoolEdits : Type 0
FarmPoolEdits = List (ℕ × Edit)

unfoldable pub edit_of : ℕ → FarmPoolEdits → Option Edit
edit_of pid [] = none
edit_of pid ((key, edit) ∷ rest) = if key == pid then some edit else edit_of pid rest

abbrev is_farmed : Option PoolOption → Bool
is_farmed none = false
is_farmed (some option) = option.already_farmed

abbrev label_of : Option PoolOption → String
label_of none = ""
label_of (some option) = option.label

unfoldable pub selected : String → List PoolOption → Option PoolOption
unfolding same_address
selected token options = find_first (λ o. same_address (some o.address) (some token)) options

-- `isAddress` is the library's.
module _ (is_address : String → Bool) where
  -- The two handlers differ in the call, the action and the texts. A single token is shown by its symbol, which
  -- is the `label` here.
  unfoldable pub handle_create :
      ActiveAction
      → String
      → String
      → (String → String → ℕ → Bool → ContractCall)
      → Option String
      → String
      → String
      → Bool
      → List PoolOption
      → Handled
  unfolding selected parse_alloc_point
  handle_create action title invalid call factory_address token alloc_point active options =
      elim factory_address [
        | none ↦ refused "参数无效" invalid
        | some factory ↦
            if not (present (some factory)) || not (is_address token)
            then refused "参数无效" invalid
            else if is_farmed (selected token options)
            then refused "创建失败" (label_of (selected token options) ++ " 已经创建过质押池。")
            else elim (parse_alloc_point alloc_point false) [
              | none ↦ refused "参数无效" "奖励权重请输入 1 到 1,000,000 之间的整数。"
              | some points ↦ runs action title (call factory token points active)
            ]
      ]

  unfoldable pub handle_create_lp_pool :
      Option String → String → String → Bool → List PoolOption → Handled
  unfolding handle_create
  handle_create_lp_pool = handle_create create_lp "已创建 LP 质押池" "请输入有效的 LP 代币地址。" create_lp_pool

  unfoldable pub handle_create_single_pool :
      Option String → String → String → Bool → List PoolOption → Handled
  unfolding handle_create
  handle_create_single_pool =
      handle_create create_single "已创建单币质押池" "请输入有效的单币代币地址。" create_single_token_pool

-- `edit?.allocPoint ?? ''` and `edit?.active ?? farm.active`
abbrev edited_points : Option Edit → String
edited_points none = ""
edited_points (some edit) = edit.alloc_point

abbrev edited_active : Option Edit → Bool → Bool
edited_active edit active = elim edit [ none ↦ active | some e ↦ e.active ]

unfoldable pub handle_update_pool : Option String → FarmPoolEdits → FarmRow → Handled
unfolding edit_of parse_alloc_point
handle_update_pool none edits farm = ignored
handle_update_pool (some manager) edits farm =
    if not (present (some manager))
    then ignored
    else elim (parse_alloc_point (edited_points (edit_of farm.pid edits)) true) [
      | none ↦ refused "参数无效" "奖励权重请输入 0 到 1,000,000 之间的整数。"
      | some points ↦
          runs (update farm.pid) "已更新农场配置"
            (set_pool manager farm.pid points (edited_active (edit_of farm.pid edits) farm.active))
    ]

-- `distributionBlockReason || !parsedRewardAmount`, and the message `distributionBlockReason ?? …`
abbrev not_amount : Option ℤ → Bool
not_amount none = true
not_amount (some (pos n)) = n == 0
not_amount (some z) = false

abbrev reason_or : Option String → String
reason_or none = "请输入有效的奖励数量。"
reason_or (some reason) = reason

unfoldable pub handle_distribute_rewards :
    Option String → Option TokenMeta → Option String → Option ℤ → Handled
handle_distribute_rewards (some manager) (some token) reason parsed =
    if not (present (some manager))
    then refused "暂不可分发" "奖励信息尚未加载完成。"
    else if present reason || not_amount parsed
    then refused "暂不可分发" (reason_or reason)
    else elim parsed [
      | none ↦ refused "暂不可分发" (reason_or reason)
      | some amount ↦ runs distribute "已分发奖励" (distribute_rewards manager amount)
    ]
handle_distribute_rewards manager token reason parsed = refused "暂不可分发" "奖励信息尚未加载完成。"

-- What running a transaction shows, in order.
pub data Shown : Type 0 where
  active_action : Option ActiveAction → Shown
  success error : (title message : String) → Shown
  reloads : Shown

-- `run` is the transaction with its hash, `receipt` the wait for it, `reload` the reading of the data;
-- `format_error` is `formatErrorMessage`.
unfoldable pub run_transaction {ℓ} :
    {R : Type ℓ}
    → Bool
    → (Failure → String)
    → ActiveAction
    → String
    → Attempt String
    → (String → Attempt R)
    → Attempt R
    → List Shown
unfolding short_address
run_transaction {R = R} has_client format_error action title run receipt reload =
    if not has_client
    then error "无法提交交易" "当前 RPC 客户端尚未准备好，请稍后再试。" ∷ []
    else active_action (some action) ∷ after run
  where
    reloaded : Attempt R → List Shown
    reloaded (ok done) = active_action none ∷ []
    reloaded (failed e) = error "交易失败" (format_error e) ∷ active_action none ∷ []

    confirmed : String → Attempt R → List Shown
    confirmed hash (ok done) =
        success title ("交易已确认：" ++ short_address hash) ∷ reloads ∷ reloaded reload
    confirmed hash (failed e) = error "交易失败" (format_error e) ∷ active_action none ∷ []

    after : Attempt String → List Shown
    after (ok hash) = confirmed hash (receipt hash)
    after (failed e) = error "交易失败" (format_error e) ∷ active_action none ∷ []
