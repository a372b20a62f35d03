-- ===== src/Pools/Reserves.antt =====
-- frontend/src/app/pool/[pairAddress]/page.tsx: the reserves of a pool over time, and the ranges of the
-- charts. Where no event tells the reserves, they are counted back from those of now.
use mathlib.Core.List.{reverse}
use flux_swap_dex.Common.{String, Bool, true, false, List, [], ◌∷◌, not, select, map}
use flux_swap_dex.Common.Int.{ℤ, pos, ◌+ℤ◌, ◌-ℤ◌, ltb_ℤ}
use flux_swap_dex.Common.Sorting.{sort, ascending}
use flux_swap_dex.Pools.{
  Change, swap, add, remove, sync, PoolActivityViewModel, PoolDetailViewModel,
}

pub record ReserveSnapshot : Type 0 where
  pub timestamp : ℤ
  pub block_number : ℤ
  pub log_index : ℤ
  pub reserve0 : ℤ
  pub reserve1 : ℤ

-- The comparator `sortReserveSnapshots`
unfoldable pub snapshot_after : ReserveSnapshot → ReserveSnapshot → Bool
unfolding ascending
snapshot_after =
    ascending (λ s. s.timestamp)
      (ascending (λ s. s.block_number) (ascending (λ s. s.log_index) (λ s t. false)))

abbrev pub is_sync_change : Change → Bool
is_sync_change (sync r0 r1) = true
is_sync_change _ = false

-- `activity.type === 'sync'`
unfoldable pub is_sync_activity : PoolActivityViewModel → Bool
is_sync_activity a = is_sync_change a.change

unfoldable pub snapshot_at : PoolActivityViewModel → ℤ → ℤ → ReserveSnapshot
snapshot_at a reserve0 reserve1 = record {
  timestamp = a.timestamp;
  block_number = a.block_number;
  log_index = a.log_index;
  reserve0 = reserve0;
  reserve1 = reserve1;
}

-- `activity.reserve0`, `activity.reserve1` of a sync event
unfoldable pub sync_snapshot : PoolActivityViewModel → ReserveSnapshot
unfolding snapshot_at
sync_snapshot a = elim a.change [
  | sync r0 r1 ↦ snapshot_at a r0 r1
  | _ ↦ snapshot_at a (pos 0) (pos 0)
]

-- The reserves before an event, from those after it. The page has no sync event here, whose fields
-- would all be undefined.
unfoldable pub undone : Change → ℤ × ℤ → ℤ × ℤ
undone (add sender a0 a1) (r0, r1) = (r0 -ℤ a0, r1 -ℤ a1)
undone (remove sender recipient a0 a1) (r0, r1) = (r0 +ℤ a0, r1 +ℤ a1)
undone (swap sender recipient in0 in1 out0 out1) (r0, r1) =
    ((r0 -ℤ in0) +ℤ out0, (r1 -ℤ in1) +ℤ out1)
undone (sync s0 s1) (r0, r1) = (r0, r1)

unfoldable pub created_snapshot : PoolDetailViewModel → ℤ × ℤ → ReserveSnapshot
created_snapshot pool (reserve0, reserve1) = record {
  timestamp = pool.created_at_timestamp;
  block_number = pos 0;
  log_index = pos 0;
  reserve0 = reserve0;
  reserve1 = reserve1;
}

-- The loop over the events from the latest back.
unfoldable pub rewound :
    PoolDetailViewModel → List PoolActivityViewModel → ℤ × ℤ → List ReserveSnapshot
unfolding created_snapshot snapshot_at undone
rewound pool [] reserves = created_snapshot pool reserves ∷ []
rewound pool (a ∷ rest) reserves =
    snapshot_at a reserves.0 reserves.1 ∷ rewound pool rest (undone a.change reserves)

module _ (locale_compare : String → String → ℤ) where
  -- The comparator of the events: the earliest first.
  unfoldable pub event_after : PoolActivityViewModel → PoolActivityViewModel → Bool
  unfolding ascending
  event_after =
      ascending (λ a. a.timestamp)
        (ascending (λ a. a.block_number)
          (ascending (λ a. a.log_index) (λ a b. ltb_ℤ (pos 0) (locale_compare a.id b.id))))

  -- The events other than syncs, the latest first.
  unfoldable pub latest_first : List PoolActivityViewModel → List PoolActivityViewModel
  unfolding sort event_after is_sync_activity
  latest_first activities =
      reverse (sort event_after (select (λ a. not (is_sync_activity a)) activities))

  unfoldable pub or_rewound :
      PoolDetailViewModel → List PoolActivityViewModel → List ReserveSnapshot → List ReserveSnapshot
  unfolding rewound latest_first
  or_rewound pool activities [] =
      rewound pool (latest_first activities) (pool.pool.reserve0, pool.pool.reserve1)
  or_rewound pool activities (s ∷ syncs) = s ∷ syncs

  unfoldable pub build_reserve_snapshots :
      PoolDetailViewModel → List PoolActivityViewModel → List ReserveSnapshot
  unfolding sort snapshot_after or_rewound is_sync_activity sync_snapshot
  build_reserve_snapshots pool activities =
      sort snapshot_after
        (or_rewound pool activities (map sync_snapshot (select is_sync_activity activities)))
