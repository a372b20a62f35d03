-- ===== src/Pools/Rewinding.antt =====
-- frontend/src/app/pool/[pairAddress]/page.tsx: counting the reserves back undoes the events.
use mathlib.Core.List.{Perm}
use flux_swap_dex.Common.{String, false, List, [], ◌∷◌, select, map, ◌≡◌, refl, ◌≢◌}
use flux_swap_dex.Common.Int.{ℤ, ◌+ℤ◌, ◌-ℤ◌}
use flux_swap_dex.Common.Sorting.{
  IsConsistent, IsOrdered, sort-perm, sort-IsOrdered, ascending-IsConsistent,
}
use flux_swap_dex.Pools.{
  Change, swap, add, remove, sync, PoolActivityViewModel, PoolDetailViewModel,
}
use flux_swap_dex.Pools.Reserves.{
  ReserveSnapshot, snapshot_after, is_sync_activity, is_sync_change, snapshot_at, created_snapshot,
  or_rewound, build_reserve_snapshots, sync_snapshot,
}

-- What an event does to the reserves.
unfoldable pub applied : Change → ℤ × ℤ → ℤ × ℤ
applied (add sender a0 a1) (r0, r1) = (r0 +ℤ a0, r1 +ℤ a1)
applied (remove sender recipient a0 a1) (r0, r1) = (r0 -ℤ a0, r1 -ℤ a1)
applied (swap sender recipient in0 in1 out0 out1) (r0, r1) =
    ((r0 +ℤ in0) -ℤ out0, (r1 +ℤ in1) -ℤ out1)
applied (sync s0 s1) reserves = (s0, s1)

-- The reserves after events, the latest of which stands first.
unfoldable pub reserves_after : ℤ × ℤ → List PoolActivityViewModel → ℤ × ℤ
unfolding applied
reserves_after start [] = start
reserves_after start (a ∷ earlier) = applied a.change (reserves_after start earlier)

-- A snapshot after each event, the latest first, and one of the pool's creation.
unfoldable pub trail :
    PoolDetailViewModel → ℤ × ℤ → List PoolActivityViewModel → List ReserveSnapshot
unfolding reserves_after
trail pool start [] = created_snapshot pool start ∷ []
trail pool start (a ∷ earlier) =
    snapshot_at a (reserves_after start (a ∷ earlier)).0 (reserves_after start (a ∷ earlier)).1
    ∷ trail pool start earlier

IsEvent : PoolActivityViewModel → Type 0
IsEvent a = is_sync_change a.change ≡ false

snapshot_after-IsConsistent : IsConsistent snapshot_after
unfolding snapshot_after
snapshot_after-IsConsistent =
    ascending-IsConsistent (λ s. s.timestamp) _
      (ascending-IsConsistent (λ s. s.block_number) _
        (ascending-IsConsistent (λ s. s.log_index) _ ((λ s t h. refl), (λ s t u h k. refl))))

module _ (locale_compare : String → String → ℤ) where
  kept :
      (pool : PoolDetailViewModel) (activities syncs : List PoolActivityViewModel)
      → syncs ≢ []
      → or_rewound locale_compare pool activities (map sync_snapshot syncs)
        ≡ map sync_snapshot syncs
  unfolding or_rewound
  kept pool activities [] there = absurd (there refl)
  kept pool activities (s ∷ syncs) there = refl

  -- Where a pool has sync events, the snapshots are theirs, each as often, in the order of their places in the
  -- chain.
  pub build_reserve_snapshots-Perm :
      (pool : PoolDetailViewModel) (activities : List PoolActivityViewModel)
      → select is_sync_activity activities ≢ []
      → Perm
          (build_reserve_snapshots locale_compare pool activities)
          (map sync_snapshot (select is_sync_activity activities))
        × IsOrdered snapshot_after (build_reserve_snapshots locale_compare pool activities)
  unfolding build_reserve_snapshots
  build_reserve_snapshots-Perm pool activities some_syncs =
      rw (kept pool activities (select is_sync_activity activities) some_syncs) (
        sort-perm snapshot_after (map sync_snapshot (select is_sync_activity activities)),
        sort-IsOrdered snapshot_after snapshot_after-IsConsistent
            (map sync_snapshot (select is_sync_activity activities)),
      )
