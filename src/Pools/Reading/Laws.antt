-- ===== src/Pools/Reading/Laws.antt =====
-- frontend/src/lib/subgraph/pools.ts: the activities of a pool that has been read.
use mathlib.Core.List.{Perm}
use flux_swap_dex.Common.{Bool, List, [], ◌∷◌, false, ◌≡◌, ap, arith, All, ◌⊎◌, inl, inr}
use flux_swap_dex.Common.Int.{pos, ltb_ℤ, ◌<ℤ◌, ◌≤ℤ◌}
use flux_swap_dex.Common.Sorting.{
  IsConsistent, IsOrdered, sort-perm, sort-IsOrdered, descending-IsConsistent, descending-split,
  descending, sort,
}
use flux_swap_dex.Api.Values.{Attempt, ok, failed, >>=-eq-ok}
use flux_swap_dex.Pools.{
  PoolDetailQueryResult, PoolActivityViewModel, PoolDetailResult, DetailQuery,
}
use flux_swap_dex.Pools.Reading.{
  Runtime, activity_after, sort_pool_activities, pool_detail_data, all_activities, detail_of,
  get_pool_detail,
}

activities_of : Attempt PoolDetailResult → List PoolActivityViewModel
activities_of (ok result) = result.activities
activities_of (failed error) = []

module _ (e : Runtime) where
  activity_after-IsConsistent :
      IsConsistent (λ a b. ltb_ℤ (pos 0) (e.locale_compare a b)) → IsConsistent (activity_after e)
  unfolding activity_after
  activity_after-IsConsistent consistent =
      descending-IsConsistent (λ a. a.timestamp) _
        (descending-IsConsistent (λ a. a.block_number) _
          (descending-IsConsistent (λ a. a.log_index) _
            (λ a b. consistent.0 a.id b.id, λ a b c. consistent.1 a.id b.id c.id)))

  -- Of two activities the first may stand before the second: it is the later one by its timestamp, or at
  -- the same time by its block, or in the same block by its index in the log, or it has the same index and
  -- an id that the engine does not put after the other's.
  abbrev pub IsLater : PoolActivityViewModel → PoolActivityViewModel → Type 0
  IsLater a b =
      (b.timestamp <ℤ a.timestamp)
      ⊎ ((a.timestamp ≡ b.timestamp)
          × ((b.block_number <ℤ a.block_number)
              ⊎ ((a.block_number ≡ b.block_number)
                  × ((b.log_index <ℤ a.log_index)
                      ⊎ ((a.log_index ≡ b.log_index) × (e.locale_compare a.id b.id ≤ℤ pos 0))))))

  abbrev pub IsLatestFirst : List PoolActivityViewModel → Type 0
  IsLatestFirst [] = Unit
  IsLatestFirst (a ∷ rest) = All (IsLater a) rest × IsLatestFirst rest

  abbrev by_id : PoolActivityViewModel → PoolActivityViewModel → Bool
  by_id a b = ltb_ℤ (pos 0) (e.locale_compare a.id b.id)

  abbrev by_index : PoolActivityViewModel → PoolActivityViewModel → Bool
  by_index = descending (λ a. a.log_index) by_id

  abbrev by_block : PoolActivityViewModel → PoolActivityViewModel → Bool
  by_block = descending (λ a. a.block_number) by_index

  activity_after-IsLater :
      (a b : PoolActivityViewModel) → activity_after e a b ≡ false → IsLater a b
  unfolding activity_after
  activity_after-IsLater a b h = elim (descending-split (λ a. a.timestamp) by_block a b h) [
    | inl later ↦ inl later
    | inr (time, h1) ↦ inr (
      time,
      elim (descending-split (λ a. a.block_number) by_index a b h1) [
        | inl later ↦ inl later
        | inr (block, h2) ↦ inr (
          block,
          elim (descending-split (λ a. a.log_index) by_id a b h2) [
            | inl later ↦ inl later
            | inr (index, h3) ↦ inr (index, ground (arith, h3))
          ],
        )
      ],
    )
  ]

  All-IsLater :
      (a : PoolActivityViewModel) (bs : List PoolActivityViewModel)
      → All (λ b. activity_after e a b ≡ false) bs
      → All (IsLater a) bs
  All-IsLater a [] h = tt
  All-IsLater a (b ∷ bs) (h, hs) = (activity_after-IsLater a b h, All-IsLater a bs hs)

  IsOrdered-IsLatestFirst :
      (xs : List PoolActivityViewModel) → IsOrdered (activity_after e) xs → IsLatestFirst xs
  IsOrdered-IsLatestFirst [] h = tt
  IsOrdered-IsLatestFirst (a ∷ rest) (h, hs) =
      (All-IsLater a rest h, IsOrdered-IsLatestFirst rest hs)

  -- Where the engine's order of texts is consistent and reading a pool succeeds, its activities are those of
  -- one of the two queries' answers, each as often, and each may stand before all that follow it: it is
  -- later by its timestamp, or at the same time by its block, or in the same block by its index in the log, or
  -- has the same index and an id that the engine does not put after the other's.
  pub get_pool_detail-Perm :
      (fetch : DetailQuery → Attempt PoolDetailQueryResult) (result : PoolDetailResult)
      → IsConsistent (λ a b. ltb_ℤ (pos 0) (e.locale_compare a b))
      → get_pool_detail e fetch ≡ ok result
      → (found : PoolDetailQueryResult) × (all : List PoolActivityViewModel) × (pool_detail_data e
            fetch
          ≡ ok found)
        × (all_activities e found ≡ ok all)
        × Perm result.activities all
        × IsLatestFirst result.activities
  unfolding get_pool_detail sort_pool_activities activities_of
  get_pool_detail-Perm fetch result consistent h =
      let (found, r0, h0) = >>=-eq-ok (pool_detail_data e fetch) _ h in
      let (all, r1, h1) = >>=-eq-ok (all_activities e found) _ h0 in
      let (pool, r2, h2) = >>=-eq-ok (detail_of e found.pair) _ h1 in
      let same = ap activities_of h2 in
      (
        found,
        all,
        r0,
        r1,
        rw (← same) (sort-perm (activity_after e) all),
        rw (← same) (
            IsOrdered-IsLatestFirst (sort (activity_after e) all)
              (sort-IsOrdered (activity_after e) (activity_after-IsConsistent consistent) all)),
      )
