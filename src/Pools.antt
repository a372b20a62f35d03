-- ===== src/Pools.antt =====
-- frontend/src/lib/subgraph/client.ts and pools.ts: pools and their activities, read from the subgraph.
pub mod Reading
pub mod Reserves
pub mod Rewinding
pub mod Indexed
pub mod Tests
use Prim.Native.Char.{code}
use Prim.Native.String.{[] as empty_text, ◌∷◌ as char_cons, ◌++◌ as text_append}
use flux_swap_dex.Common.{
  ℕ, String, Bool, true, false, List, [], ◌∷◌, ◌++◌, Option, none, some, if◌then◌else◌, ◌==◌, not,
  ◌&&◌, ◌||◌,
}
use flux_swap_dex.Common.Int.{ℤ, pos, ltb_ℤ}
use flux_swap_dex.Common.Sorting.{sort, descending}
use flux_swap_dex.Common.BigInt.{parse_big_int, nat_to_string}
use flux_swap_dex.Common.Text.{to_lower_case}
use flux_swap_dex.Api.Values.{
  Value, text, number, whole, Failure, Attempt, ok, failed, ◌>>=◌, throw, or_throw, or_else,
}

-- What `fetch` gives to a query: the status, and the parts of the body.
pub record GraphQlResponse (D : Type 0) : Type 0 where
  pub is_ok : Bool
  pub status : ℕ
  pub json : Attempt (Option (List (Option String)) × Option D)

unfoldable pub fetch_subgraph : {D : Type 0} → Attempt (GraphQlResponse D) → Attempt D
unfolding nat_to_string
fetch_subgraph fetched = do
  response ← fetched
  if not response.is_ok
      then throw
          (text_append "Subgraph request failed with status " (nat_to_string response.status))
      else (response.json >>= λ (errors, data_of). elim errors [
        | some (first ∷ more) ↦ throw (or_else first "Subgraph request failed")
        | _ ↦ or_throw data_of "Subgraph response did not include data"
      ])

pub record SubgraphSwapEvent : Type 0 where
  pub id : String
  pub sender : String
  pub to : String
  pub amount0_in : String
  pub amount1_in : String
  pub amount0_out : String
  pub amount1_out : String
  pub timestamp : String
  pub block_number : String
  pub tx_hash : String
  pub log_index : String

pub record SubgraphMintEvent : Type 0 where
  pub id : String
  pub sender : String
  pub amount0 : String
  pub amount1 : String
  pub timestamp : String
  pub block_number : String
  pub tx_hash : String
  pub log_index : String

pub record SubgraphBurnEvent : Type 0 where
  pub id : String
  pub sender : String
  pub to : String
  pub amount0 : String
  pub amount1 : String
  pub timestamp : String
  pub block_number : String
  pub tx_hash : String
  pub log_index : String

pub record SubgraphSyncEvent : Type 0 where
  pub id : String
  pub reserve0 : String
  pub reserve1 : String
  pub timestamp : String
  pub block_number : String
  pub tx_hash : String
  pub log_index : String

pub record SubgraphToken : Type 0 where
  pub id : String
  pub symbol : String
  pub decimals : Option Value

pub record SubgraphPair : Type 0 where
  pub id : String
  pub token0 : SubgraphToken
  pub token1 : SubgraphToken
  pub reserve0 : String
  pub reserve1 : String
  pub swaps : Option (List SubgraphSwapEvent)
  pub total_supply : Option String
  pub tx_count : Option String
  pub swap_count : Option String
  pub mint_count : Option String
  pub burn_count : Option String
  pub created_at_timestamp : Option String
  pub created_at_tx_hash : Option String

pub record PoolDetailQueryResult : Type 0 where
  pub pair : Option SubgraphPair
  pub swap_events : Option (List SubgraphSwapEvent)
  pub mint_events : Option (List SubgraphMintEvent)
  pub burn_events : Option (List SubgraphBurnEvent)
  pub sync_events : Option (List SubgraphSyncEvent)

-- What the members of `PoolActivityViewModel` have of their own.
pub data Change : Type 0 where
  -- amount0In, amount1In, amount0Out, amount1Out
  swap : (sender recipient : String) → (in0 in1 out0 out1 : ℤ) → Change
  add : (sender : String) → (amount0 amount1 : ℤ) → Change
  remove : (sender recipient : String) → (amount0 amount1 : ℤ) → Change
  sync : (reserve0 reserve1 : ℤ) → Change

pub record PoolActivityViewModel : Type 0 where
  pub id : String
  pub change : Change
  pub timestamp : ℤ
  pub block_number : ℤ
  pub tx_hash : String
  pub log_index : ℤ

pub record PoolToken : Type 0 where
  pub id : String
  pub symbol : String
  pub decimals : ℤ

pub record PoolRecentSwapViewModel : Type 0 where
  pub amount0_in : ℤ
  pub amount1_in : ℤ
  pub amount0_out : ℤ
  pub amount1_out : ℤ
  pub timestamp : ℤ

pub record PoolViewModel : Type 0 where
  pub id : String
  pub token0 : PoolToken
  pub token1 : PoolToken
  pub reserve0 : ℤ
  pub reserve1 : ℤ
  pub total_supply : ℤ
  pub recent_swaps : List PoolRecentSwapViewModel

pub record PoolDetailViewModel : Type 0 where
  pub pool : PoolViewModel
  pub total_supply : ℤ
  pub tx_count : ℤ
  pub swap_count : ℤ
  pub mint_count : ℤ
  pub burn_count : ℤ
  pub created_at_timestamp : ℤ
  pub created_at_tx_hash : String

pub record PoolDetailResult : Type 0 where
  pub pool : Option PoolDetailViewModel
  pub activities : List PoolActivityViewModel

-- `(list ?? []).map(f)`, where `f` may throw.
abbrev pub map_all : {A B : Type 0} → (A → Attempt B) → List A → Attempt (List B)
map_all f [] = ok []
map_all f (x ∷ xs) = f x >>= λ y. map_all f xs >>= λ ys. ok (y ∷ ys)

abbrev pub or_empty {ℓ} : {A : Type ℓ} → Option (List A) → List A
or_empty none = []
or_empty (some xs) = xs

pub data DetailQuery : Type 0 where
  pool_detail_query pool_detail_legacy_query : DetailQuery
