-- ===== src/Portfolio.antt =====
-- frontend/src/app/portfolio/page.tsx: the limit orders of the wallet, gathered from the pages of the
-- listing, merged by their keys, filtered and sorted.
pub mod Keys
pub mod Requests
pub mod Pages
pub mod Tests
use Prim.Native.String.{◌++◌}
use flux_swap_dex.Common.{
  ℕ, zero, String, Bool, true, false, List, [], ◌∷◌, Option, none, some, str_eq, ◌==◌,
  if◌then◌else◌, select, ◌&&◌, ◌||◌,
}
use mathlib.Core.List.{◌++◌ as append}
use flux_swap_dex.Common.Int.{ℤ, pos, ltb_ℤ}
use flux_swap_dex.Common.Sorting.{place, sort}
use flux_swap_dex.Common.BigInt.{nat_to_string}
use flux_swap_dex.Common.Text.{trim, to_lower_case, is_empty}
use flux_swap_dex.LocalOrders.{
  LocalLimitOrderRecord, or_old_option, build_order_key, changed_at, order_key,
}

-- `{ ...previous, ...order }`
unfoldable pub overlaid : LocalLimitOrderRecord → LocalLimitOrderRecord → LocalLimitOrderRecord
overlaid order previous = record order {
  status_reason = or_old_option order.status_reason previous.status_reason;
  cancelled_tx_hash = or_old_option order.cancelled_tx_hash previous.cancelled_tx_hash;
}

-- `buildLimitOrderKey(order)` of the page
unfoldable pub build_limit_order_key : LocalLimitOrderRecord → String
unfolding trim to_lower_case nat_to_string
build_limit_order_key order =
    nat_to_string order.chain_id
    ++ ":"
    ++ to_lower_case (trim order.settlement_address)
    ++ ":"
    ++ to_lower_case (trim order.order_hash)

-- `merged.set(key, …)`: in the place of the entry of the key, or after all entries. The values of the
-- map stand for it, since the key of each is its own.
unfoldable pub put_order :
    LocalLimitOrderRecord → List LocalLimitOrderRecord → List LocalLimitOrderRecord
unfolding changed_at overlaid build_limit_order_key
put_order order entries = elim (changed_at (build_limit_order_key order) (overlaid order) entries) [
  | none ↦ append entries (order ∷ [])
  | some next ↦ next
]

unfoldable pub put_all :
    List LocalLimitOrderRecord → List LocalLimitOrderRecord → List LocalLimitOrderRecord
unfolding put_order
put_all [] entries = entries
put_all (order ∷ rest) entries = put_all rest (put_order order entries)

unfoldable pub put_lists :
    List (List LocalLimitOrderRecord) → List LocalLimitOrderRecord → List LocalLimitOrderRecord
unfolding put_all
put_lists [] entries = entries
put_lists (orders ∷ rest) entries = put_lists rest (put_all orders entries)

abbrev or_next : ℤ → ℤ → ℤ
or_next (pos zero) next = next
or_next compared next = compared

-- `left.localeCompare(right)` is the engine's.
module _ (locale_compare : String → String → ℤ) where
  unfoldable pub compare_limit_orders : LocalLimitOrderRecord → LocalLimitOrderRecord → ℤ
  compare_limit_orders left right = or_next (locale_compare right.created_at left.created_at) (
      or_next (locale_compare right.updated_at left.updated_at)
        (locale_compare right.order_hash left.order_hash))

  unfoldable pub comes_after : LocalLimitOrderRecord → LocalLimitOrderRecord → Bool
  unfolding compare_limit_orders
  comes_after left right = ltb_ℤ (pos 0) (compare_limit_orders left right)

  unfoldable pub sort_limit_orders : List LocalLimitOrderRecord → List LocalLimitOrderRecord
  unfolding sort comes_after
  sort_limit_orders orders = sort comes_after orders

  unfoldable pub merge_limit_orders : List (List LocalLimitOrderRecord) → List LocalLimitOrderRecord
  unfolding put_lists sort_limit_orders
  merge_limit_orders lists = sort_limit_orders (put_lists lists [])

  -- The test of `filterWalletLimitOrders`; an empty settlement address tests nothing.
  unfoldable pub is_of_wallet : ℕ → String → Option String → LocalLimitOrderRecord → Bool
  unfolding trim to_lower_case
  is_of_wallet chain_id maker settlement_address order =
      order.chain_id == chain_id
      && str_eq (to_lower_case (trim order.maker)) (to_lower_case (trim maker))
      && elim settlement_address [
        | none ↦ true
        | some s ↦
            is_empty (to_lower_case (trim s))
            || str_eq (to_lower_case (trim order.settlement_address)) (to_lower_case (trim s))
      ]

  unfoldable pub filter_wallet_limit_orders :
      List LocalLimitOrderRecord → ℕ → String → Option String → List LocalLimitOrderRecord
  unfolding sort_limit_orders is_of_wallet
  filter_wallet_limit_orders orders chain_id maker settlement_address =
      sort_limit_orders (select (is_of_wallet chain_id maker settlement_address) orders)
