-- ===== src/Subgraph/Supply.antt =====
-- The supply of a pair's shares, as its transfers give it.
use flux_swap_dex.Common.{ℕ, ◌+◌, List, [], ◌∷◌, ◌≡◌, arith, ◌∙◌}
use flux_swap_dex.Common.Int.{ℤ, pos, ◌+ℤ◌, ◌-ℤ◌, int_laws}
use flux_swap_dex.Subgraph.Entities.{Bytes, GraphTs, Pair}
use flux_swap_dex.Subgraph.Pairs.{supply_after}
use flux_swap_dex.Subgraph.History.{minted_by, burned_by, total_minted, total_burned}
use flux_swap_dex.Subgraph.Steps.{advance}
use flux_swap_dex.Subgraph.Runs.{advance_all}
use flux_swap_dex.Subgraph.Trace.{Event, created, transferred}

no_change : (z : ℤ) → z ≡ z +ℤ pos 0 -ℤ pos 0
no_change z = omega int_laws

add_changes :
    (x y : ℤ) (a b c d : ℕ)
    → y ≡ x +ℤ pos a -ℤ pos b
    → y +ℤ pos c -ℤ pos d ≡ x +ℤ pos (a + c) -ℤ pos (b + d)
add_changes x y a b c d h = rw h (omega int_laws)

module _ (g : GraphTs) (a : Bytes) where
  supply_step :
      (e : Event) (p : Pair)
      → (advance g a e p).total_supply
        ≡ p.total_supply +ℤ pos (minted_by g a e) -ℤ pos (burned_by g a e)
  unfolding advance supply_after
  supply_step (transferred e o) p = ground (arith, no_change p.total_supply)
  supply_step (created e o) p = no_change p.total_supply
  supply_step _ p = ground (arith, no_change p.total_supply)

  pub supply-all :
      (es : List Event) (p : Pair)
      → (advance_all g a es p).total_supply
        ≡ p.total_supply +ℤ pos (total_minted g a es) -ℤ pos (total_burned g a es)
  unfolding advance_all
  supply-all [] p = no_change p.total_supply
  supply-all (e ∷ es) p =
      supply-all es (advance g a e p) ∙ add_changes p.total_supply _ _ _ _ _ (supply_step e p)
