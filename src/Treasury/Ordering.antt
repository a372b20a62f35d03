-- ===== src/Treasury/Ordering.antt =====
-- The order of the operations table, `sortOperations` of
-- admin-frontend/src/components/treasury/TreasuryUtils.ts.
use flux_swap_dex.Common.{if◌then◌else◌, ◌≡◌, refl, ◌∙◌, arith, ◌⊎◌, inl, inr}
use flux_swap_dex.Common.Int.{ℤ, pos, negsuc, ltb_ℤ, ◌<ℤ◌, eq_of_parts}
use flux_swap_dex.Treasury.Types.{OperationRow, Status, pending, ready}
use flux_swap_dex.Treasury.Utils.{sort_operations, by_status, eq_ℤ}

-- The order that the table is meant to have: what is ready first, then the earliest time of execution, and
-- of the same time the latest block.
abbrev pub Before : OperationRow → OperationRow → Type 0
Before a b =
    ((a.status ≡ ready) × (b.status ≡ pending))
    ⊎ ((a.status ≡ b.status)
        × ((a.execute_after <ℤ b.execute_after)
            ⊎ ((a.execute_after ≡ b.execute_after) × (b.block_number <ℤ a.block_number))))

-- The part of the comparator below the status.
abbrev by_time : ℤ → ℤ → ℤ → ℤ → ℤ
by_time time_a block_a time_b block_b =
    if eq_ℤ time_a time_b
    then (if ltb_ℤ block_b block_a then negsuc 0 else pos 1)
    else if ltb_ℤ time_a time_b
    then negsuc 0
    else pos 1

Earlier : ℤ → ℤ → ℤ → ℤ → Type 0
Earlier t k t' k' = (t <ℤ t') ⊎ ((t ≡ t') × (k' <ℤ k))

by_time-Earlier :
    (t k t' k' : ℤ)
    → ((by_time t k t' k' ≡ negsuc 0) × Earlier t k t' k')
      ⊎ ((by_time t k t' k' ≡ pos 1) × (Earlier t k t' k' → ⊥))
unfolding Earlier
by_time-Earlier t k t' k' = ground (arith, eq_of_parts t t')

by_status-Before :
    (s s' : Status) (rest : ℤ) (Later : Type 0)
    → ((rest ≡ negsuc 0) × Later) ⊎ ((rest ≡ pos 1) × (Later → ⊥))
    → ((by_status s s' rest ≡ negsuc 0) × (((s ≡ ready) × (s' ≡ pending)) ⊎ ((s ≡ s') × Later)))
      ⊎ ((by_status s s' rest ≡ pos 1)
          × ((((s ≡ ready) × (s' ≡ pending)) ⊎ ((s ≡ s') × Later)) → ⊥))
unfolding by_status
by_status-Before ready pending rest Later h = inl (refl, inl (refl, refl))
by_status-Before pending ready rest Later h =
    inr (refl, λ b. elim b [ inl (x, y) ↦ cc (x) | inr (x, y) ↦ cc (x) ])
by_status-Before ready ready rest Later (inl (h, l)) = inl (h, inr (refl, l))
by_status-Before ready ready rest Later (inr (h, l)) =
    inr (h, λ b. elim b [ inl (x, y) ↦ cc (y) | inr (x, y) ↦ l y ])
by_status-Before pending pending rest Later (inl (h, l)) = inl (h, inr (refl, l))
by_status-Before pending pending rest Later (inr (h, l)) =
    inr (h, λ b. elim b [ inl (x, y) ↦ cc (x) | inr (x, y) ↦ l y ])

-- The comparator answers -1 for a row that is ready against one that is pending, and, of two with the same
-- status, for the one with the earlier time of execution or, at the same time, the later block; in every
-- other case it answers 1.
pub sort_operations-Before :
    (a b : OperationRow)
    → ((sort_operations a b ≡ negsuc 0) × Before a b)
      ⊎ ((sort_operations a b ≡ pos 1) × (Before a b → ⊥))
unfolding sort_operations Earlier
sort_operations-Before a b =
    by_status-Before a.status b.status
      (by_time a.execute_after a.block_number b.execute_after b.block_number)
      (Earlier a.execute_after a.block_number b.execute_after b.block_number)
      (by_time-Earlier a.execute_after a.block_number b.execute_after b.block_number)

by_status-tie : (s : Status) (x : ℤ) → by_status s s x ≡ x
unfolding by_status
by_status-tie ready x = refl
by_status-tie pending x = refl

tie : (t k : ℤ) → by_time t k t k ≡ pos 1
tie t k = ground arith

-- Two rows with the same status, the same time of execution and the same block each come after the other.
pub sort_operations-tie :
    (a b : OperationRow)
    → a.status ≡ b.status
    → a.execute_after ≡ b.execute_after
    → a.block_number ≡ b.block_number
    → (sort_operations a b ≡ pos 1) × (sort_operations b a ≡ pos 1)
unfolding sort_operations
sort_operations-tie a b status time block =
    rw (status, time, block)
      (
        by_status-tie b.status _ ∙ tie b.execute_after b.block_number,
        by_status-tie b.status _ ∙ tie b.execute_after b.block_number,
      )
