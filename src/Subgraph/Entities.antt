-- ===== src/Subgraph/Entities.antt =====
-- The entities that the subgraph keeps, and what it uses of its host (graph-ts and the entity store).
use flux_swap_dex.Common.{ℕ, String, Option, none, some, ◌≡◌, str_eq, if◌then◌else◌}
use flux_swap_dex.Common.Int.{ℤ}

-- A `Bytes` or `Address` value stands as a text that tells it from every other.
abbrev pub Bytes : Type 0
Bytes = String

-- What graph-ts gives: the text form of a value, concatenation, and a number's bytes.
pub record GraphTs : Type 0 where
  pub to_hex_string : Bytes → String
  pub concat : Bytes → Bytes → Bytes
  pub from_big_int : ℕ → Bytes

-- A table of the entity store: what `save` wrote last under an id is what `load` gives.
pub record Tables : Type 1 where
  pub Table : Type 0 → Type 0
  pub empty : (V : Type 0) → Table V
  pub load : (V : Type 0) → Bytes → Table V → Option V
  pub save : (V : Type 0) → Bytes → V → Table V → Table V
  pub load-empty : (V : Type 0) (id : Bytes) → load V id (empty V) ≡ none
  pub load-save :
      (V : Type 0) (id other : Bytes) (v : V) (t : Table V)
      → load V other (save V id v t) ≡ (if str_eq id other then some v else load V other t)

pub record Token : Type 0 where
  pub symbol : String
  pub name : String
  pub decimals : ℕ
  pub created_at_timestamp : ℕ

pub record Pair : Type 0 where
  pub id : Bytes
  pub token0 : Bytes
  pub token1 : Bytes
  pub reserve0 : ℕ
  pub reserve1 : ℕ
  pub total_supply : ℤ
  pub tx_count : ℕ
  pub swap_count : ℕ
  pub mint_count : ℕ
  pub burn_count : ℕ
  pub created_at_block : ℕ
  pub created_at_timestamp : ℕ
  pub created_at_tx_hash : Bytes

-- Where an event stands in the chain.
pub record Origin : Type 0 where
  pub address : Bytes
  pub timestamp : ℕ
  pub block_number : ℕ
  pub tx_hash : Bytes
  pub log_index : ℕ

pub record Mint : Type 0 where
  pub sender : Bytes
  pub amount0 : ℕ
  pub amount1 : ℕ

pub record Burn : Type 0 where
  pub sender : Bytes
  pub amount0 : ℕ
  pub amount1 : ℕ
  pub to : Bytes

pub record Swap : Type 0 where
  pub sender : Bytes
  pub amount0_in : ℕ
  pub amount1_in : ℕ
  pub amount0_out : ℕ
  pub amount1_out : ℕ
  pub to : Bytes

pub record Sync : Type 0 where
  pub reserve0 : ℕ
  pub reserve1 : ℕ

pub record Transfer : Type 0 where
  pub from : Bytes
  pub to : Bytes
  pub value : ℕ

-- An event entity: the pair that it belongs to, the event's parameters and its place in the chain.
pub record Logged (P : Type 0) : Type 0 where
  pub pair : Bytes
  pub params : P
  pub timestamp : ℕ
  pub block_number : ℕ
  pub tx_hash : Bytes
  pub log_index : ℕ
