-- ===== src/SwapQuotes/Paths.antt =====
-- frontend/src/components/SwapWidget.tsx: route states that are kept as the same.
use flux_swap_dex.Common.{
  String, Bool, true, false, List, [], ◌∷◌, Option, none, some, str_eq, eq_iff, not, ◌&&◌, ◌≡◌,
  refl, ap, ◌+◌, arith, Bool-cases, inl, inr, map,
}
use flux_swap_dex.Common.Int.{ℤ, pos_part, neg_part, leb_ℤ, eq_of_parts}
use flux_swap_dex.Common.Text.{to_lower_case, is_empty}
use flux_swap_dex.SwapQuotes.{
  BackendRouteState, are_addresses_equal, every_equal, are_route_paths_equal, is_same_route_state,
  next_rate_state, same_bool, same_text, same_amount,
}

-- A path without the case of its letters.
abbrev pub lowered : Option (List String) → Option (List String)
lowered none = none
lowered (some path) = some (map to_lower_case path)

split_and : (a b : Bool) → (a && b) ≡ true → (a ≡ true) × (b ≡ true)
split_and true b h = (refl, h)
split_and false b h = cc

same_bool-eq : (a b : Bool) → same_bool a b ≡ true → a ≡ b
same_bool-eq true true h = refl
same_bool-eq false false h = refl
same_bool-eq true false h = cc
same_bool-eq false true h = cc

same_text-eq : (a b : Option String) → same_text a b ≡ true → a ≡ b
same_text-eq none none h = refl
same_text-eq (some a) (some b) h = ap some ((eq_iff a b).0 h)
same_text-eq none (some b) h = cc
same_text-eq (some a) none h = cc

same_parts :
    (a b : ℤ) → (leb_ℤ a b && leb_ℤ b a) ≡ true → pos_part a + neg_part b ≡ pos_part b + neg_part a
same_parts a b h = let (le, ge) = split_and (leb_ℤ a b) (leb_ℤ b a) h in ground (arith, le, ge)

same_amount-eq : (a b : Option ℤ) → same_amount a b ≡ true → a ≡ b
same_amount-eq none none h = refl
same_amount-eq (some a) (some b) h = ap some (eq_of_parts a b (same_parts a b h))
same_amount-eq none (some b) h = cc
same_amount-eq (some a) none h = cc

every_equal-map :
    (ls rs : List String) → every_equal ls rs ≡ true → map to_lower_case ls ≡ map to_lower_case rs
unfolding every_equal are_addresses_equal
every_equal-map [] [] h = refl
every_equal-map (l ∷ ls) (r ∷ rs) h =
    let (first, rest) = split_and (are_addresses_equal l r) (every_equal ls rs) h in
    let (filled, letters) =
      split_and (not (is_empty l) && not (is_empty r)) (str_eq (to_lower_case l) (to_lower_case r))
        first in
    let front = (eq_iff (to_lower_case l) (to_lower_case r)).0 letters in
    rw (front, every_equal-map ls rs rest) refl
every_equal-map [] (r ∷ rs) h = cc
every_equal-map (l ∷ ls) [] h = cc

are_route_paths_equal-lowered :
    (a b : Option (List String)) → are_route_paths_equal a b ≡ true → lowered a ≡ lowered b
unfolding are_route_paths_equal
are_route_paths_equal-lowered none none h = refl
are_route_paths_equal-lowered (some a) (some b) h = ap some (every_equal-map a b h)
are_route_paths_equal-lowered none (some b) h = cc
are_route_paths_equal-lowered (some a) none h = cc

-- Agreement on all that the widget compares.
abbrev pub Agrees : BackendRouteState → BackendRouteState → Type 0
Agrees a b =
    (a.did_fetch ≡ b.did_fetch)
    × (a.loading ≡ b.loading)
    × (a.error ≡ b.error)
    × (a.amount_in ≡ b.amount_in)
    × (a.amount_out ≡ b.amount_out)
    × (lowered a.execution_path ≡ lowered b.execution_path)

is_same_route_state-Agrees : (a b : BackendRouteState) → is_same_route_state a b ≡ true → Agrees a b
unfolding is_same_route_state
is_same_route_state-Agrees a b h =
    let (h0, path) = split_and _ (are_route_paths_equal a.execution_path b.execution_path) h in
    let (h1, amount_out) = split_and _ (same_amount a.amount_out b.amount_out) h0 in
    let (h2, amount_in) = split_and _ (same_amount a.amount_in b.amount_in) h1 in
    let (h3, error) = split_and _ (same_text a.error b.error) h2 in
    let (fetched, loading) =
      split_and (same_bool a.did_fetch b.did_fetch) (same_bool a.loading b.loading) h3 in
    (
      same_bool-eq a.did_fetch b.did_fetch fetched,
      same_bool-eq a.loading b.loading loading,
      same_text-eq a.error b.error error,
      same_amount-eq a.amount_in b.amount_in amount_in,
      same_amount-eq a.amount_out b.amount_out amount_out,
      are_route_paths_equal-lowered a.execution_path b.execution_path path,
    )

-- The rate's state after a fetch agrees with what was fetched in all that is compared, up to the case of the
-- letters of the path's addresses, whether the state before is kept or not.
pub next_rate_state-Agrees :
    (current next : BackendRouteState) → Agrees (next_rate_state current next) next
unfolding next_rate_state
next_rate_state-Agrees current next = elim (Bool-cases (is_same_route_state current next)) [
  | inl same ↦ rw same (is_same_route_state-Agrees current next same)
  | inr other ↦ rw other (refl, refl, refl, refl, refl, refl)
]
