-- ===== src/Farm/Edits.antt =====
-- admin-frontend/src/components/farm/useFarmData.ts: what loading the data does to what is being edited.
use flux_swap_dex.Common.{
  ℕ, String, Bool, true, false, List, [], ◌∷◌, ◌++◌, Option, none, some, if◌then◌else◌, not,
  find_first, any, ◌==◌, ◌&&◌, ◌||◌, ◌≡◌, refl, sym, ap, ◌∙◌, arith, Bool-cases, Option-cases, inl,
  inr,
}
use flux_swap_dex.Common.BigInt.{nat_to_string}
use flux_swap_dex.Common.Text.{is_empty}
use flux_swap_dex.Treasury.Utils.{same_address}
use flux_swap_dex.Farm.{PoolOption, FarmRow}
use flux_swap_dex.Farm.Actions.{Edit, FarmPoolEdits, edit_of}

-- The option that is chosen where none is: the first that has no farm, or the first.
abbrev address_or : Option PoolOption → String → String
address_or none fallback = fallback
address_or (some o) fallback = o.address

abbrev first_of : List PoolOption → Option PoolOption
first_of [] = none
first_of (o ∷ rest) = some o

-- `syncSelectedLpToken` and `syncSelectedSingleToken`
unfoldable pub sync_selected_token : Bool → List PoolOption → String → String
unfolding same_address
sync_selected_token manual options current =
    if not (is_empty current)
      && (manual || any (λ o. same_address (some o.address) (some current)) options)
    then current
    else address_or (find_first (λ o. not o.already_farmed) options)
        (address_or (first_of options) "")

unfoldable pub edit_for : FarmRow → Edit
unfolding nat_to_string
edit_for farm = record { alloc_point = nat_to_string farm.alloc_point; active = farm.active }

-- One round of the loop of `syncPoolEdits`
unfoldable pub sync_edit : FarmRow → FarmPoolEdits → FarmPoolEdits
unfolding edit_of edit_for
sync_edit farm edits = elim (edit_of farm.pid edits) [
  | none ↦ edits ++ ((farm.pid, edit_for farm) ∷ [])
  | some edit ↦ edits
]

unfoldable pub sync_pool_edits : List FarmRow → FarmPoolEdits → FarmPoolEdits
unfolding sync_edit
sync_pool_edits [] edits = edits
sync_pool_edits (farm ∷ rest) edits = sync_pool_edits rest (sync_edit farm edits)

-- The first farm of an id.
unfoldable pub farm_at : ℕ → List FarmRow → Option FarmRow
farm_at pid [] = none
farm_at pid (farm ∷ rest) = if farm.pid == pid then some farm else farm_at pid rest

abbrev pub or_edit_for : Option Edit → Option FarmRow → Option Edit
or_edit_for (some edit) farm = some edit
or_edit_for none none = none
or_edit_for none (some farm) = some (edit_for farm)

-- What there is for an id, or the new edit where it is for that id.
or_new : Option Edit → Bool → Edit → Option Edit
or_new (some there) is_new edit = some there
or_new none is_new edit = if is_new then some edit else none

or_new-false : (o : Option Edit) (edit : Edit) → or_new o false edit ≡ o
unfolding or_new
or_new-false none edit = refl
or_new-false (some there) edit = refl

edit_of-append :
    (pid key : ℕ) (edit : Edit) (edits : FarmPoolEdits)
    → edit_of pid (edits ++ ((key, edit) ∷ [])) ≡ or_new (edit_of pid edits) (key == pid) edit
unfolding edit_of or_new
edit_of-append pid key edit [] = refl
edit_of-append pid key edit ((k, e) ∷ rest) = elim (Bool-cases (k == pid)) [
  | inl same ↦ rw same
  | inr other ↦ rw other (edit_of-append pid key edit rest)
]

edit_of-same :
    (key pid : ℕ) (edits : FarmPoolEdits) (o : Option Edit)
    → (key == pid) ≡ true
    → edit_of key edits ≡ o
    → edit_of pid edits ≡ o
edit_of-same key pid edits o same h = let e : key ≡ pid = ground (arith, same) in rw (← e) h

or_no_farm : (o : Option Edit) → or_edit_for o none ≡ o
or_no_farm none = refl
or_no_farm (some edit) = refl

edit_of-sync_edit :
    (pid : ℕ) (farm : FarmRow) (rest : List FarmRow) (edits : FarmPoolEdits)
    → or_edit_for (edit_of pid (sync_edit farm edits)) (farm_at pid rest)
      ≡ or_edit_for (edit_of pid edits) (farm_at pid (farm ∷ rest))
unfolding sync_edit farm_at or_new
edit_of-sync_edit pid farm rest edits = elim (Option-cases (edit_of farm.pid edits)) [
  | inr (edit, there) ↦ elim (Bool-cases (farm.pid == pid)) [
    | inl same ↦
        let here = edit_of-same farm.pid pid edits (some edit) same there in
        rw (there, sync_edit, here) refl
    | inr other ↦ rw (there, sync_edit, other)
  ]
  | inl new ↦ elim (Bool-cases (farm.pid == pid)) [
    | inl same ↦
        let here = edit_of-same farm.pid pid edits none same new in
        rw (new, sync_edit, edit_of-append pid farm.pid (edit_for farm) edits, here, same) refl
    | inr other ↦
        rw (new, sync_edit, edit_of-append pid farm.pid (edit_for farm) edits, other)
          (ap (λ o. or_edit_for o (farm_at pid rest))
            (or_new-false (edit_of pid edits) (edit_for farm)))
  ]
]

-- After the data are loaded, a farm's edit is the one there was, and otherwise the first loaded farm of its id
-- as it is.
pub edit_of-sync_pool_edits :
    (pid : ℕ) (farms : List FarmRow) (edits : FarmPoolEdits)
    → edit_of pid (sync_pool_edits farms edits)
      ≡ or_edit_for (edit_of pid edits) (farm_at pid farms)
unfolding sync_pool_edits
edit_of-sync_pool_edits pid [] edits = unfold farm_at in sym (or_no_farm (edit_of pid edits))
edit_of-sync_pool_edits pid (farm ∷ rest) edits =
    edit_of-sync_pool_edits pid rest (sync_edit farm edits) ∙ edit_of-sync_edit pid farm rest edits
