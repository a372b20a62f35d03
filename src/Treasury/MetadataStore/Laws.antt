-- ===== src/Treasury/MetadataStore/Laws.antt =====
-- The records of operations: what is kept, what is forgotten, and that the storage follows the state.
use flux_swap_dex.Common.{
  ℕ, String, true, List, [], ◌∷◌, none, some, str_eq, eq_iff, eq_refl, if◌then◌else◌, ◌≡◌, refl,
  arith, Bool-cases, Option-cases, inl, inr,
}
use flux_swap_dex.Treasury.Types.{Metadata, present, given}
use flux_swap_dex.Treasury.MetadataStore.{
  Records, Store, lookup, put, without, storage_key, stored, load_treasury_operation_metadata,
  save_treasury_operation_metadata, reload, keep, persist_metadata, remove_metadata,
}

module _ {V : Type 0} where
  pub lookup-put :
      (j k : String) (v : V) (m : List (String × V))
      → lookup j (put k v m) ≡ (if str_eq k j then some v else lookup j m)
  unfolding lookup put
  lookup-put j k v [] = refl
  lookup-put j k v ((other, kept) ∷ m) =
      ground (arith, eq_iff k j, eq_iff other k, eq_iff other j, lookup-put j k v m)

  pub lookup-without :
      (j k : String) (m : List (String × V))
      → lookup j (without k m) ≡ (if str_eq k j then none else lookup j m)
  unfolding lookup without
  lookup-without j k [] = ground arith
  lookup-without j k ((other, kept) ∷ m) =
      ground (arith, eq_iff k j, eq_iff other k, eq_iff other j, lookup-without j k m)

-- The storage gives back the records of the state, where there is a storage.
abbrev pub IsSaved : Store → Type 0
IsSaved s =
    (items : List (String × Records))
    → s.storage ≡ some items
    → load_treasury_operation_metadata s.chain_id (given s.treasury_address) s.storage
      ≡ s.operation_metadata_by_id

load-save :
    (chain_id : ℕ) (treasury : String) (records : Records) (items : List (String × Records))
    → load_treasury_operation_metadata chain_id treasury
        (save_treasury_operation_metadata chain_id treasury records (some items))
      ≡ records
unfolding load_treasury_operation_metadata save_treasury_operation_metadata stored
load-save chain_id treasury records items = rw (
  lookup-put (storage_key chain_id treasury) (storage_key chain_id treasury) records items,
  eq_refl (storage_key chain_id treasury),
)

keep-IsSaved : (records : Records) (s : Store) → IsSaved (keep records s)
unfolding keep
keep-IsSaved records s items h = elim (Option-cases s.storage) [
  | inl missing ↦
      let gone : save_treasury_operation_metadata s.chain_id (given s.treasury_address) records
            s.storage
          ≡ none =
        rw missing (unfold save_treasury_operation_metadata in refl) in
      cc (gone, h)
  | inr (old, there) ↦ rw there (load-save s.chain_id (given s.treasury_address) records old)
]

persist_metadata-IsSaved : (m : Metadata) (s : Store) → IsSaved s → IsSaved (persist_metadata m s)
unfolding persist_metadata
persist_metadata-IsSaved m s saved = elim (Bool-cases (present s.treasury_address)) [
  | inl there ↦ rw there (keep-IsSaved (put m.operation_id m s.operation_metadata_by_id) s)
  | inr missing ↦ rw missing saved
]

remove_metadata-IsSaved : (id : String) (s : Store) → IsSaved s → IsSaved (remove_metadata id s)
unfolding remove_metadata
remove_metadata-IsSaved id s saved = elim (Bool-cases (present s.treasury_address)) [
  | inl there ↦ elim (Option-cases (lookup id s.operation_metadata_by_id)) [
    | inl absent ↦ rw (there, absent, remove_metadata) saved
    | inr (m, found) ↦
        rw (there, found, remove_metadata) (keep-IsSaved (without id s.operation_metadata_by_id) s)
  ]
  | inr missing ↦ rw missing saved
]

-- Recording an operation for a known treasury changes the record of that operation and of no other.
pub lookup-persist_metadata :
    (m : Metadata) (id : String) (s : Store)
    → present s.treasury_address ≡ true
    → lookup id (persist_metadata m s).operation_metadata_by_id
      ≡ (if str_eq m.operation_id id then some m else lookup id s.operation_metadata_by_id)
unfolding persist_metadata keep
lookup-persist_metadata m id s there =
    rw there (lookup-put id m.operation_id m s.operation_metadata_by_id)

-- Forgetting an operation for a known treasury removes its record and no other.
pub lookup-remove_metadata :
    (gone id : String) (s : Store)
    → present s.treasury_address ≡ true
    → lookup id (remove_metadata gone s).operation_metadata_by_id
      ≡ (if str_eq gone id then none else lookup id s.operation_metadata_by_id)
unfolding remove_metadata keep
lookup-remove_metadata gone id s there =
    elim (Option-cases (lookup gone s.operation_metadata_by_id)) [
      | inl absent ↦ elim (Bool-cases (str_eq gone id)) [
        | inl same ↦
            let here : lookup id s.operation_metadata_by_id ≡ none =
              rw (← (eq_iff _ _).0 same) absent in
            rw (there, absent, remove_metadata, same) here
        | inr other ↦ rw (there, absent, remove_metadata, other)
      ]
      | inr (m, found) ↦
          rw (there, found, remove_metadata) (lookup-without id gone s.operation_metadata_by_id)
    ]

-- A step of the hook's life, in any order.
pub data Step : Type 0 where
  persisted : Metadata → Step
  removed : String → Step

unfoldable pub step : Step → Store → Store
step (persisted m) s = persist_metadata m s
step (removed id) s = remove_metadata id s

unfoldable pub steps : List Step → Store → Store
steps [] s = s
steps (x ∷ xs) s = steps xs (step x s)

steps-IsSaved : (xs : List Step) (s : Store) → IsSaved s → IsSaved (steps xs s)
unfolding steps step
steps-IsSaved [] s saved = saved
steps-IsSaved (persisted m ∷ xs) s saved =
    steps-IsSaved xs (persist_metadata m s) (persist_metadata-IsSaved m s saved)
steps-IsSaved (removed id ∷ xs) s saved =
    steps-IsSaved xs (remove_metadata id s) (remove_metadata-IsSaved id s saved)

reload-IsSaved :
    (s : Store) → s.mounted ≡ true → present s.treasury_address ≡ true → IsSaved (reload s)
unfolding reload
reload-IsSaved s mounted there items h = rw (mounted, there)

-- Once a mounted component with a known treasury has read its records from the storage, then after any
-- sequence of recordings and removals the storage, where there is one, gives back the records of the
-- state.
pub steps-reload-IsSaved :
    (xs : List Step) (s : Store) (items : List (String × Records))
    → s.mounted ≡ true
    → present s.treasury_address ≡ true
    → (steps xs (reload s)).storage ≡ some items
    → load_treasury_operation_metadata
        (steps xs (reload s)).chain_id
        (given (steps xs (reload s)).treasury_address)
        (steps xs (reload s)).storage
      ≡ (steps xs (reload s)).operation_metadata_by_id
steps-reload-IsSaved xs s items mounted there =
    steps-IsSaved xs (reload s) (reload-IsSaved s mounted there) items
