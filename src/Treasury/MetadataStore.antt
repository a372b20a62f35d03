-- ===== src/Treasury/MetadataStore.antt =====
-- admin-frontend/src/components/treasury/useTreasuryMetadataStore.ts with the storage functions of
-- TreasuryUtils.ts: the records of operations, in the component's state and in the browser's storage.
-- A record is kept in the storage as JSON; the model keeps the record that the JSON stands for.
pub mod Laws
use Prim.Native.String.{◌++◌}
use flux_swap_dex.Common.{
  ℕ, String, Bool, true, false, not, ◌||◌, List, [], ◌∷◌, Option, none, some, str_eq, if◌then◌else◌,
}
use flux_swap_dex.Common.Text.{to_lower_case}
use flux_swap_dex.Common.BigInt.{nat_to_string}
use flux_swap_dex.Treasury.Types.{Metadata, present, given}

-- `Record<Hex, TreasuryOperationMetadata>`
abbrev pub Records : Type 0
Records = List (String × Metadata)

module _ {V : Type 0} where
  unfoldable pub lookup : String → List (String × V) → Option V
  lookup key [] = none
  lookup key ((k, v) ∷ rest) = if str_eq k key then some v else lookup key rest

  -- `{ ...records, [key]: value }`
  unfoldable pub put : String → V → List (String × V) → List (String × V)
  put key value [] = (key, value) ∷ []
  put key value ((k, v) ∷ rest) =
      if str_eq k key then (key, value) ∷ rest else (k, v) ∷ put key value rest

  -- `delete records[key]`
  unfoldable pub without : String → List (String × V) → List (String × V)
  without key [] = []
  without key ((k, v) ∷ rest) = if str_eq k key then without key rest else (k, v) ∷ without key rest

-- The browser's storage, where there is a window.
abbrev pub Storage : Type 0
Storage = Option (List (String × Records))

unfoldable pub storage_key : ℕ → String → String
unfolding to_lower_case nat_to_string
storage_key chain_id treasury =
    "fluxswap-admin:treasury-operations"
    ++ ":"
    ++ nat_to_string chain_id
    ++ ":"
    ++ to_lower_case treasury

stored : Option Records → Records
stored none = []
stored (some r) = r

unfoldable pub load_treasury_operation_metadata : ℕ → String → Storage → Records
unfolding storage_key stored lookup
load_treasury_operation_metadata chain_id treasury none = []
load_treasury_operation_metadata chain_id treasury (some items) =
    stored (lookup (storage_key chain_id treasury) items)

unfoldable pub save_treasury_operation_metadata : ℕ → String → Records → Storage → Storage
unfolding storage_key put
save_treasury_operation_metadata chain_id treasury records none = none
save_treasury_operation_metadata chain_id treasury records (some items) =
    some (put (storage_key chain_id treasury) records items)

-- The state of the hook and the storage beside it.
pub record Store : Type 0 where
  pub chain_id : ℕ
  pub mounted : Bool
  pub treasury_address : Option String
  pub operation_metadata_by_id : Records
  pub storage : Storage

-- The effect that runs when the chain, the mount or the treasury changes.
unfoldable pub reload : Store → Store
unfolding load_treasury_operation_metadata
reload s = record s {
  operation_metadata_by_id =
      if not s.mounted || not (present s.treasury_address)
      then []
      else load_treasury_operation_metadata s.chain_id (given s.treasury_address) s.storage;
}

-- `setOperationMetadataById` with the new records, which are saved too.
keep : Records → Store → Store
keep records s = record s {
  operation_metadata_by_id = records;
  storage =
      save_treasury_operation_metadata s.chain_id (given s.treasury_address) records s.storage;
}

unfoldable pub persist_metadata : Metadata → Store → Store
unfolding keep put save_treasury_operation_metadata
persist_metadata metadata s =
    if not (present s.treasury_address)
    then s
    else keep (put metadata.operation_id metadata s.operation_metadata_by_id) s

unfoldable pub remove_metadata : String → Store → Store
unfolding keep lookup without save_treasury_operation_metadata
remove_metadata operation_id s =
    if not (present s.treasury_address)
    then s
    else elim (lookup operation_id s.operation_metadata_by_id) [
      | none ↦ s
      | some _ ↦ keep (without operation_id s.operation_metadata_by_id) s
    ]
