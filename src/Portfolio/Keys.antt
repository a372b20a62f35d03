-- ===== src/Portfolio/Keys.antt =====
-- frontend/src/app/portfolio/page.tsx: what the merged orders hold for each key.
use flux_swap_dex.Common.{
  String, Bool, false, List, [], ◌∷◌, ◌++◌, Option, none, some, str_eq, eq_iff, if◌then◌else◌, ◌≡◌,
  refl, sym, ap, ◌∙◌, arith, Bool-cases, Option-cases, inl, inr,
}
use flux_swap_dex.Common.Int.{ℤ}
use flux_swap_dex.Common.Sorting.{place, sort}
use flux_swap_dex.LocalOrders.{LocalLimitOrderRecord, build_order_key, changed_at, or_old_option}
use flux_swap_dex.LocalOrders.Merging.{
  order_at, IsKeyed, changed_at-none, order_at-changed_at, changed_at-IsKeyed, swap_tests,
}
use flux_swap_dex.Portfolio.{
  overlaid, put_order, put_all, put_lists, build_limit_order_key, sort_limit_orders,
  merge_limit_orders, comes_after,
}

-- An order over what is known of it.
abbrev pub overlaid_on :
    LocalLimitOrderRecord → Option LocalLimitOrderRecord → LocalLimitOrderRecord
overlaid_on order none = order
overlaid_on order (some previous) = record order {
  status_reason = elim order.status_reason [ none ↦ previous.status_reason | some r ↦ some r ];
  cancelled_tx_hash = elim order.cancelled_tx_hash [
    | none ↦ previous.cancelled_tx_hash
    | some h ↦ some h
  ];
}

given_or_known :
    (given known : Option String)
    → or_old_option given known ≡ elim given [ none ↦ known | some v ↦ some v ]
given_or_known none known = refl
given_or_known (some v) known = refl

overlaid-overlaid_on :
    (order previous : LocalLimitOrderRecord)
    → overlaid order previous ≡ overlaid_on order (some previous)
unfolding overlaid
overlaid-overlaid_on order previous = rw (
  given_or_known order.status_reason previous.status_reason,
  given_or_known order.cancelled_tx_hash previous.cancelled_tx_hash,
)

-- The orders of one key in a list, each laid over the ones in front of it.
unfoldable pub overlay :
    String
    → Option LocalLimitOrderRecord
    → List LocalLimitOrderRecord
    → Option LocalLimitOrderRecord
overlay key known [] = known
overlay key known (o ∷ rest) =
    overlay key (if str_eq (build_order_key o) key then some (overlaid_on o known) else known) rest

abbrev pub joined : List (List LocalLimitOrderRecord) → List LocalLimitOrderRecord
joined [] = []
joined (orders ∷ rest) = orders ++ joined rest

build_order_key-overlaid :
    (o previous : LocalLimitOrderRecord) → build_order_key (overlaid o previous) ≡ build_order_key o
unfolding build_order_key overlaid
build_order_key-overlaid o previous = refl

-- The first order of a list has another key than an order that the list has not.
unlike_first :
    (o p : LocalLimitOrderRecord) (os : List LocalLimitOrderRecord)
    → order_at (build_order_key o) (p ∷ os) ≡ none
    → (str_eq (build_order_key o) (build_order_key p) ≡ false)
      × (order_at (build_order_key o) os ≡ none)
unfolding order_at
unlike_first o p os new = elim (Bool-cases (str_eq (build_order_key p) (build_order_key o))) [
  | inl same ↦ cc (rw same at new)
  | inr other ↦ (
    ground (
      arith,
      eq_iff (build_order_key o) (build_order_key p),
      eq_iff (build_order_key p) (build_order_key o),
    ),
    rw other at new,
  )
]

order_at-append :
    (k : String) (os : List LocalLimitOrderRecord) (o : LocalLimitOrderRecord)
    → order_at (build_order_key o) os ≡ none
    → order_at k (os ++ (o ∷ [])) ≡ (if str_eq (build_order_key o) k then some o else order_at k os)
unfolding order_at
order_at-append k [] o new = refl
order_at-append k (p ∷ os) o new =
    elim (Bool-cases (str_eq (build_order_key p) (build_order_key o))) [
      | inl same ↦ cc (rw same at new)
      | inr other ↦ rw (order_at-append k os o (rw other at new)) (
          swap_tests (some o) (order_at k os) (some p) (build_order_key p) (build_order_key o) k
            other)
    ]

append-IsKeyed :
    (os : List LocalLimitOrderRecord) (o : LocalLimitOrderRecord)
    → order_at (build_order_key o) os ≡ none
    → IsKeyed os
    → IsKeyed (os ++ (o ∷ []))
append-IsKeyed [] o new keyed = (unfold order_at in refl, tt)
append-IsKeyed (p ∷ os) o new (once, keyed) =
    let (other, gone) = unlike_first o p os new in
    (order_at-append (build_order_key p) os o gone ∙ rw other once, append-IsKeyed os o gone keyed)

order_at-put_order :
    (k : String) (o : LocalLimitOrderRecord) (os : List LocalLimitOrderRecord)
    → order_at k (put_order o os) ≡ (
        if str_eq (build_order_key o) k
        then some (overlaid_on o (order_at (build_order_key o) os))
        else order_at k os)
unfolding put_order build_limit_order_key build_order_key
order_at-put_order k o os =
    elim (Option-cases (changed_at (build_limit_order_key o) (overlaid o) os)) [
      | inl new ↦
          let gone : order_at (build_order_key o) os ≡ none =
            changed_at-none (build_order_key o) (overlaid o) os new in
          rw (new, put_order, gone) (order_at-append k os o gone)
      | inr (xs, there) ↦
          let (old, found, kept) =
            order_at-changed_at (build_order_key o) k (overlaid o) os xs
              (λ p same. build_order_key-overlaid o p) there in
          rw (there, put_order, found, ← overlaid-overlaid_on o old) kept
    ]

put_order-IsKeyed :
    (o : LocalLimitOrderRecord) (os : List LocalLimitOrderRecord)
    → IsKeyed os
    → IsKeyed (put_order o os)
unfolding put_order build_limit_order_key build_order_key
put_order-IsKeyed o os keyed =
    elim (Option-cases (changed_at (build_limit_order_key o) (overlaid o) os)) [
      | inl new ↦
          rw (new, put_order)
            (append-IsKeyed os o (changed_at-none (build_order_key o) (overlaid o) os new) keyed)
      | inr (xs, there) ↦
          rw (there, put_order)
            (changed_at-IsKeyed (build_order_key o) (overlaid o) os xs
              (λ p same. build_order_key-overlaid o p) keyed there)
    ]

same_key :
    (k : String) (o : LocalLimitOrderRecord) (os : List LocalLimitOrderRecord)
    → (if str_eq (build_order_key o) k
        then some (overlaid_on o (order_at (build_order_key o) os))
        else order_at k os)
      ≡ (if str_eq (build_order_key o) k
          then some (overlaid_on o (order_at k os))
          else order_at k os)
same_key k o os = elim (Bool-cases (str_eq (build_order_key o) k)) [
  | inl same ↦ rw (same, (eq_iff (build_order_key o) k).0 same)
  | inr other ↦ rw other
]

order_at-put_all :
    (k : String) (new os : List LocalLimitOrderRecord)
    → order_at k (put_all new os) ≡ overlay k (order_at k os) new
unfolding put_all overlay
order_at-put_all k [] os = refl
order_at-put_all k (o ∷ new) os =
    order_at-put_all k new (put_order o os)
    ∙ ap (λ known. overlay k known new) (order_at-put_order k o os ∙ same_key k o os)

put_all-IsKeyed : (new os : List LocalLimitOrderRecord) → IsKeyed os → IsKeyed (put_all new os)
unfolding put_all
put_all-IsKeyed [] os keyed = keyed
put_all-IsKeyed (o ∷ new) os keyed =
    put_all-IsKeyed new (put_order o os) (put_order-IsKeyed o os keyed)

overlay-append :
    (k : String) (known : Option LocalLimitOrderRecord) (xs ys : List LocalLimitOrderRecord)
    → overlay k known (xs ++ ys) ≡ overlay k (overlay k known xs) ys
unfolding overlay
overlay-append k known [] ys = refl
overlay-append k known (x ∷ xs) ys =
    overlay-append k (if str_eq (build_order_key x) k then some (overlaid_on x known) else known) xs
      ys

order_at-put_lists :
    (k : String) (lists : List (List LocalLimitOrderRecord)) (os : List LocalLimitOrderRecord)
    → order_at k (put_lists lists os) ≡ overlay k (order_at k os) (joined lists)
unfolding put_lists
order_at-put_lists k [] os = unfold overlay in refl
order_at-put_lists k (xs ∷ lists) os =
    order_at-put_lists k lists (put_all xs os)
    ∙ ap (λ known. overlay k known (joined lists)) (order_at-put_all k xs os)
    ∙ sym (overlay-append k (order_at k os) xs (joined lists))

put_lists-IsKeyed :
    (lists : List (List LocalLimitOrderRecord)) (os : List LocalLimitOrderRecord)
    → IsKeyed os
    → IsKeyed (put_lists lists os)
unfolding put_lists
put_lists-IsKeyed [] os keyed = keyed
put_lists-IsKeyed (xs ∷ lists) os keyed =
    put_lists-IsKeyed lists (put_all xs os) (put_all-IsKeyed xs os keyed)

same_front :
    (k : String) (o : LocalLimitOrderRecord) (xs ys : List LocalLimitOrderRecord)
    → order_at k xs ≡ order_at k ys
    → order_at k (o ∷ xs) ≡ order_at k (o ∷ ys)
unfolding order_at
same_front k o xs ys same = rw same

-- Sorting leaves what each key holds.
module _ (after : LocalLimitOrderRecord → LocalLimitOrderRecord → Bool) where
  order_at-place :
      (k : String) (o : LocalLimitOrderRecord) (os : List LocalLimitOrderRecord)
      → order_at (build_order_key o) os ≡ none
      → order_at k (place after o os) ≡ order_at k (o ∷ os)
  unfolding place order_at
  order_at-place k o [] new = refl
  order_at-place k o (p ∷ os) new = elim (Bool-cases (after o p)) [
    | inr sooner ↦ rw sooner
    | inl later ↦ elim (Bool-cases (str_eq (build_order_key p) (build_order_key o))) [
      | inl same ↦ cc (rw same at new)
      | inr other ↦
          rw (later, order_at-place k o os (rw other at new))
            (swap_tests (some o) (order_at k os) (some p) (build_order_key p) (build_order_key o) k
              other)
    ]
  ]

  place-IsKeyed :
      (o : LocalLimitOrderRecord) (os : List LocalLimitOrderRecord)
      → IsKeyed (o ∷ os)
      → IsKeyed (place after o os)
  unfolding place
  place-IsKeyed o [] keyed = keyed
  place-IsKeyed o (p ∷ os) (new, (once, keyed)) = elim (Bool-cases (after o p)) [
    | inr sooner ↦ rw sooner (new, (once, keyed))
    | inl later ↦
        let (other, gone) = unlike_first o p os new in
        rw later (
          order_at-place (build_order_key p) o os gone ∙ (unfold order_at in rw other once),
          place-IsKeyed o os (gone, keyed),
        )
  ]

  sorted_keys :
      (os : List LocalLimitOrderRecord)
      → IsKeyed os
      → IsKeyed (sort after os) × ((k : String) → order_at k (sort after os) ≡ order_at k os)
  unfolding sort
  sorted_keys [] keyed = (tt, λ k. refl)
  sorted_keys (o ∷ os) (new, keyed) =
      let (rest, same) = sorted_keys os keyed in
      let still = same (build_order_key o) ∙ new in
      (
        place-IsKeyed o (sort after os) (still, rest),
        λ k. order_at-place k o (sort after os) still ∙ same_front k o (sort after os) os (same k),
      )

module _ (locale_compare : String → String → ℤ) where
  -- The merged lists hold one order for each key, and under it the orders of that key in all the lists, each
  -- laid over the ones in front of it; a key that no list has is not there.
  pub merge_limit_orders-lem :
      (lists : List (List LocalLimitOrderRecord))
      → IsKeyed (merge_limit_orders locale_compare lists)
        × ((k : String)
            → order_at k (merge_limit_orders locale_compare lists) ≡ overlay k none (joined lists))
  unfolding merge_limit_orders sort_limit_orders
  merge_limit_orders-lem lists =
      let (keyed, same) =
        sorted_keys (comes_after locale_compare) (put_lists lists [])
          (put_lists-IsKeyed lists [] tt) in
      (keyed, λ k. same k ∙ order_at-put_lists k lists [] ∙ unfold order_at in refl)
