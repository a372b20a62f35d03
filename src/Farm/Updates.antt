-- ===== src/Farm/Updates.antt =====
-- admin-frontend/src/components/farm: the weight of a farm, from its edit to the update of the pool.
use Prim.Native.String.{[] as empty_text, ◌∷◌ as char_cons}
use flux_swap_dex.Common.Text.{without_commas, all_digits}
use flux_swap_dex.Common.{
  ℕ, ◌≤◌, String, Bool, true, List, none, some, if◌then◌else◌, ◌||◌, ltb, ◌≡◌, refl, ◌∙◌, arith,
}
use flux_swap_dex.Common.Int.{pos}
use flux_swap_dex.Common.BigInt.{nat_to_string, to_string, parse_big_int}
use flux_swap_dex.Common.BigInt.RoundTrip.{
  AllDigits, nat_to_string-AllDigits, trim-nat_to_string, is_empty-nat_to_string,
  parse_big_int-to_string,
}
use flux_swap_dex.Farm.{FarmRow, parse_alloc_point, present}
use flux_swap_dex.Farm.Actions.{runs, update, set_pool, FarmPoolEdits, edit_of, handle_update_pool}
use flux_swap_dex.Farm.Edits.{edit_for, farm_at, sync_pool_edits, edit_of-sync_pool_edits}

without_commas-AllDigits : (s : String) → AllDigits s → without_commas s ≡ s
unfolding without_commas
without_commas-AllDigits empty_text h = refl
without_commas-AllDigits (char_cons c s) (digit, h) =
    ground (arith, without_commas-AllDigits s h, digit)

all_digits-AllDigits : (s : String) → AllDigits s → all_digits s ≡ true
unfolding all_digits
all_digits-AllDigits empty_text h = refl
all_digits-AllDigits (char_cons c s) (digit, h) = ground (arith, all_digits-AllDigits s h, digit)

-- A weight that is printed is read back where it is in the range, and otherwise refused.
parse_alloc_point-nat_to_string :
    (n : ℕ) (allow_zero : Bool)
    → parse_alloc_point (nat_to_string n) allow_zero
      ≡ (if ltb n (if allow_zero then 0 else 1) || ltb 1000000 n then none else some n)
unfolding parse_alloc_point
parse_alloc_point-nat_to_string n allow_zero =
    let digits = nat_to_string-AllDigits n in
    let read : parse_big_int (nat_to_string n) ≡ some (pos n) =
      unfold to_string in parse_big_int-to_string (pos n) in
    rw
      (
        trim-nat_to_string n,
        without_commas-AllDigits (nat_to_string n) digits,
        is_empty-nat_to_string n,
        all_digits-AllDigits (nat_to_string n) digits,
        read,
      )
      refl

-- Where the data are loaded while a farm is not being edited, and it has a weight of at most 1,000,000, updating it
-- calls setPool of the manager's contract with the weight and the activity that it has.
pub handle_update_pool-sync_pool_edits :
    (manager : String) (farms : List FarmRow) (edits : FarmPoolEdits) (farm : FarmRow)
    → present (some manager) ≡ true
    → edit_of farm.pid edits ≡ none
    → farm_at farm.pid farms ≡ some farm
    → farm.alloc_point ≤ 1000000
    → handle_update_pool (some manager) (sync_pool_edits farms edits) farm
      ≡ runs (update farm.pid) "已更新农场配置" (set_pool manager farm.pid farm.alloc_point farm.active)
unfolding handle_update_pool edit_for
handle_update_pool-sync_pool_edits manager farms edits farm there new loaded small =
    let edited : edit_of farm.pid (sync_pool_edits farms edits) ≡ some (edit_for farm) =
      edit_of-sync_pool_edits farm.pid farms edits ∙ rw (new, loaded) refl in
    let read : parse_alloc_point (nat_to_string farm.alloc_point) true ≡ some farm.alloc_point =
      parse_alloc_point-nat_to_string farm.alloc_point true ∙ ground (arith, small) in
    rw (there, edited, read, edited) refl
