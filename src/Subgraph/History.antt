-- ===== src/Subgraph/History.antt =====
-- The history of a pair as the chain tells it: how many events of each kind, what they mint and burn.
use flux_swap_dex.Common.{ℕ, ◌+◌, Bool, List, [], ◌∷◌, str_eq, if◌then◌else◌, false, length, select}
use flux_swap_dex.Subgraph.Entities.{Bytes, GraphTs, Transfer}
use flux_swap_dex.Subgraph.Pairs.{zero_address}
use flux_swap_dex.Subgraph.Trace.{Event, created, minted, burned, swapped, synced, transferred}

-- The events of the pair `a`, of each kind.
abbrev pub is_mint : Bytes → Event → Bool
is_mint a (minted e o) = str_eq o.address a
is_mint a _ = false

abbrev pub is_burn : Bytes → Event → Bool
is_burn a (burned e o) = str_eq o.address a
is_burn a _ = false

abbrev pub is_swap : Bytes → Event → Bool
is_swap a (swapped e o) = str_eq o.address a
is_swap a _ = false

abbrev pub is_sync : Bytes → Event → Bool
is_sync a (synced e o) = str_eq o.address a
is_sync a _ = false

abbrev pub is_creation : Bytes → Event → Bool
is_creation a (created e o) = str_eq e.pair a
is_creation a _ = false

-- How many events of a list pass a test.
abbrev pub count_of : (Event → Bool) → List Event → ℕ
count_of test es = length (select test es)

module _ (g : GraphTs) (a : Bytes) where
  -- What the transfers of the pair's shares mint and burn.
  abbrev pub is_minting : Transfer → Bool
  is_minting e = str_eq (g.to_hex_string e.from) zero_address

  abbrev pub is_burning : Transfer → Bool
  is_burning e = str_eq (g.to_hex_string e.to) zero_address

  abbrev pub minted_by : Event → ℕ
  minted_by (transferred e o) =
      if str_eq o.address a then (if is_minting e then e.value else 0) else 0
  minted_by _ = 0

  abbrev pub burned_by : Event → ℕ
  burned_by (transferred e o) =
      if str_eq o.address a
      then (if is_minting e then 0 else if is_burning e then e.value else 0)
      else 0
  burned_by _ = 0

  abbrev pub total_minted : List Event → ℕ
  total_minted [] = 0
  total_minted (e ∷ es) = minted_by e + total_minted es

  abbrev pub total_burned : List Event → ℕ
  total_burned [] = 0
  total_burned (e ∷ es) = burned_by e + total_burned es
