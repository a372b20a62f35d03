-- ===== src/Common/Sorting.antt =====
-- `Array.prototype.sort`, which is stable, as an insertion sort; a comparator is given by the test
-- whether its first argument comes after its second.
use mathlib.Core.Path.{◌≡◌, refl}
use mathlib.Core.Logic.{inl, inr, ◌⊎◌}
use mathlib.Core.Bool.{Bool, true, false, ◌&&◌}
use native.Mathlib.Omega.{arith}
use mathlib.Core.List.{List, [], ◌∷◌, Perm}
use mathlib.Core.List.Perm
use flux_swap_dex.Common.Tests.{if◌then◌else◌, Bool-cases}
use flux_swap_dex.Common.Predicates.{All}
use flux_swap_dex.Common.Int.{ℤ, leb_ℤ, ltb_ℤ, ◌<ℤ◌, eq_of_parts}

module _ {ℓ} {A : Type ℓ} (after : A → A → Bool) where
  unfoldable pub place : A → List A → List A
  place x [] = x ∷ []
  place x (y ∷ ys) = let later = place x ys in if after x y then y ∷ later else x ∷ y ∷ ys

  unfoldable pub sort : List A → List A
  unfolding place
  sort [] = []
  sort (x ∷ xs) = place x (sort xs)

  place-perm : (x : A) (ys : List A) → Perm (place x ys) (x ∷ ys)
  unfolding place
  place-perm x [] = Perm.refl (x ∷ [])
  place-perm x (y ∷ ys) = elim (Bool-cases (after x y)) [
    | inl later ↦ rw later (Perm.trans (Perm.cons y (place-perm x ys)) (Perm.swap x y ys))
    | inr sooner ↦ rw sooner (Perm.refl (x ∷ y ∷ ys))
  ]

  pub sort-perm : (xs : List A) → Perm (sort xs) xs
  unfolding sort
  sort-perm [] = Perm.refl []
  sort-perm (x ∷ xs) = Perm.trans (place-perm x (sort xs)) (Perm.cons x (sort-perm xs))

  -- No item comes after one that follows it.
  abbrev pub IsOrdered : List A → Type ℓ
  IsOrdered [] = Unit
  IsOrdered (x ∷ xs) = All (λ y. after x y ≡ false) xs × IsOrdered xs

  All-place {κ} : (P : A → Type κ) (x : A) (ys : List A) → P x → All P ys → All P (place x ys)
  unfolding place
  All-place P x [] px h = (px, tt)
  All-place P x (y ∷ ys) px (py, h) = elim (Bool-cases (after x y)) [
    | inl later ↦ rw later (py, All-place P x ys px h)
    | inr sooner ↦ rw sooner (px, (py, h))
  ]

  pub All-sort {κ} : (P : A → Type κ) (xs : List A) → All P xs → All P (sort xs)
  unfolding sort
  All-sort P [] h = tt
  All-sort P (x ∷ xs) (px, h) = All-place P x (sort xs) px (All-sort P xs h)

  -- A comparator that is consistent: what comes after another is not before it, and an item that is not
  -- after a second one is not after what the second one is not after.
  abbrev pub IsConsistent : Type ℓ
  IsConsistent =
      ((x y : A) → after x y ≡ true → after y x ≡ false)
      × ((x y z : A) → after x y ≡ false → after y z ≡ false → after x z ≡ false)

  not_after_rest :
      IsConsistent
      → (x y : A) (ys : List A) → after x y ≡ false
      → All (λ z. after y z ≡ false) ys
      → All (λ z. after x z ≡ false) ys
  not_after_rest c x y [] h all = tt
  not_after_rest c x y (z ∷ zs) h (first, all) = (c.1 x y z h first, not_after_rest c x y zs h all)

  place-IsOrdered : IsConsistent → (x : A) (ys : List A) → IsOrdered ys → IsOrdered (place x ys)
  unfolding place
  place-IsOrdered c x [] ordered = (tt, tt)
  place-IsOrdered c x (y ∷ ys) (least, ordered) = elim (Bool-cases (after x y)) [
    | inl later ↦ rw later (
      All-place (λ z. after y z ≡ false) x ys (c.0 x y later) least,
      place-IsOrdered c x ys ordered,
    )
    | inr sooner ↦ rw sooner ((sooner, not_after_rest c x y ys sooner least), (least, ordered))
  ]

  pub sort-IsOrdered : IsConsistent → (xs : List A) → IsOrdered (sort xs)
  unfolding sort
  sort-IsOrdered c [] = tt
  sort-IsOrdered c (x ∷ xs) = place-IsOrdered c x (sort xs) (sort-IsOrdered c xs)

-- An order by a number first, ascending or descending, and by another order where the numbers are equal.
module _ {ℓ} {A : Type ℓ} (number_of : A → ℤ) (next : A → A → Bool) where
  unfoldable pub ascending : A → A → Bool
  ascending x y =
      if leb_ℤ (number_of x) (number_of y) && leb_ℤ (number_of y) (number_of x)
      then next x y
      else ltb_ℤ (number_of y) (number_of x)

  unfoldable pub descending : A → A → Bool
  descending x y =
      if leb_ℤ (number_of x) (number_of y) && leb_ℤ (number_of y) (number_of x)
      then next x y
      else ltb_ℤ (number_of x) (number_of y)

split_lem :
    (x y : ℤ) (xy : Bool)
    → (if leb_ℤ x y && leb_ℤ y x then xy else ltb_ℤ x y) ≡ false
    → (y <ℤ x) ⊎ ((x ≡ y) × (xy ≡ false))
split_lem x y xy h = ground (arith, eq_of_parts x y)

-- Of two items that may stand in this order, the first has the larger number, or the same number and may stand
-- in this order by the other order.
pub descending-split {ℓ} :
    {A : Type ℓ} (number_of : A → ℤ) (next : A → A → Bool) (x y : A)
    → descending number_of next x y ≡ false
    → (number_of y <ℤ number_of x) ⊎ ((number_of x ≡ number_of y) × (next x y ≡ false))
unfolding descending
descending-split number_of next x y h = split_lem (number_of x) (number_of y) (next x y) h

ascending_asym :
    (x y : ℤ) (xy yx : Bool)
    → (xy ≡ true → yx ≡ false)
    → (if leb_ℤ x y && leb_ℤ y x then xy else ltb_ℤ y x) ≡ true
    → (if leb_ℤ y x && leb_ℤ x y then yx else ltb_ℤ x y) ≡ false
ascending_asym x y true yx asym h = ground (arith, asym refl, h)
ascending_asym x y false yx asym h = ground (arith, h)

ascending_trans :
    (x y z : ℤ) (xy yz xz : Bool)
    → (xy ≡ false → yz ≡ false → xz ≡ false)
    → (if leb_ℤ x y && leb_ℤ y x then xy else ltb_ℤ y x) ≡ false
    → (if leb_ℤ y z && leb_ℤ z y then yz else ltb_ℤ z y) ≡ false
    → (if leb_ℤ x z && leb_ℤ z x then xz else ltb_ℤ z x) ≡ false
ascending_trans x y z false false xz trans h k = ground (arith, trans refl refl, h, k)
ascending_trans x y z true yz xz trans h k = ground (arith, h, k)
ascending_trans x y z false true xz trans h k = ground (arith, h, k)

descending-asym :
    (x y : ℤ) (xy yx : Bool)
    → (xy ≡ true → yx ≡ false)
    → (if leb_ℤ x y && leb_ℤ y x then xy else ltb_ℤ x y) ≡ true
    → (if leb_ℤ y x && leb_ℤ x y then yx else ltb_ℤ y x) ≡ false
descending-asym x y true yx asym h = ground (arith, asym refl, h)
descending-asym x y false yx asym h = ground (arith, h)

descending_trans :
    (x y z : ℤ) (xy yz xz : Bool)
    → (xy ≡ false → yz ≡ false → xz ≡ false)
    → (if leb_ℤ x y && leb_ℤ y x then xy else ltb_ℤ x y) ≡ false
    → (if leb_ℤ y z && leb_ℤ z y then yz else ltb_ℤ y z) ≡ false
    → (if leb_ℤ x z && leb_ℤ z x then xz else ltb_ℤ x z) ≡ false
descending_trans x y z false false xz trans h k = ground (arith, trans refl refl, h, k)
descending_trans x y z true yz xz trans h k = ground (arith, h, k)
descending_trans x y z false true xz trans h k = ground (arith, h, k)

module _ {ℓ} {A : Type ℓ} (number_of : A → ℤ) (next : A → A → Bool) (c : IsConsistent next) where
  pub ascending-IsConsistent : IsConsistent (ascending number_of next)
  unfolding ascending
  ascending-IsConsistent = (
    λ x y. ascending_asym (number_of x) (number_of y) (next x y) (next y x) (c.0 x y),
    λ x y z.
        ascending_trans (number_of x) (number_of y) (number_of z) (next x y) (next y z) (next x z)
          (c.1 x y z),
  )

  pub descending-IsConsistent : IsConsistent (descending number_of next)
  unfolding descending
  descending-IsConsistent = (
    λ x y. descending-asym (number_of x) (number_of y) (next x y) (next y x) (c.0 x y),
    λ x y z.
        descending_trans (number_of x) (number_of y) (number_of z) (next x y) (next y z) (next x z)
          (c.1 x y z),
  )
