-- ===== src/LocalOrders/Merging.antt =====
-- The stored orders by their keys.
use mathlib.Core.Option.{some-injective}
use flux_swap_dex.Common.{
  String, true, false, List, [], ◌∷◌, Option, none, some, str_eq, eq_iff, if◌then◌else◌, ◌≡◌, refl,
  ◌∙◌, arith, Bool-cases, Option-cases, inl, inr,
}
use flux_swap_dex.Common.Text.{is_empty}
use flux_swap_dex.LocalOrders.{
  or_old_option, LocalLimitOrderRecord, Storage, build_order_key, changed_at, merged, upserted,
  upsert_local_limit_order, read_stored_limit_orders, write_stored_limit_orders,
}

-- The first stored order of a key.
unfoldable pub order_at : String → List LocalLimitOrderRecord → Option LocalLimitOrderRecord
order_at key [] = none
order_at key (o ∷ rest) = if str_eq (build_order_key o) key then some o else order_at key rest

-- No two orders share a key.
abbrev pub IsKeyed : List LocalLimitOrderRecord → Type 0
IsKeyed [] = Unit
IsKeyed (o ∷ rest) = (order_at (build_order_key o) rest ≡ none) × IsKeyed rest

-- What is to be stored of an order where another is stored under its key, or none.
abbrev pub merged_with :
    LocalLimitOrderRecord → Option LocalLimitOrderRecord → LocalLimitOrderRecord
merged_with order none = order
merged_with order (some old) = record order {
  status_reason = elim order.status_reason [ none ↦ old.status_reason | some r ↦ some r ];
  cancelled_tx_hash = elim order.cancelled_tx_hash [
    | none ↦ old.cancelled_tx_hash
    | some h ↦ some h
  ];
  created_at = if is_empty old.created_at then order.created_at else old.created_at;
}

given_or_stored :
    (given stored : Option String)
    → or_old_option given stored ≡ elim given [ none ↦ stored | some v ↦ some v ]
given_or_stored none stored = refl
given_or_stored (some v) stored = refl

merged-merged_with :
    (order old : LocalLimitOrderRecord) → merged order old ≡ merged_with order (some old)
unfolding merged
merged-merged_with order old = rw (
  given_or_stored order.status_reason old.status_reason,
  given_or_stored order.cancelled_tx_hash old.cancelled_tx_hash,
)

pub changed_at-none :
    (key : String) (change : LocalLimitOrderRecord → LocalLimitOrderRecord)
    (os : List LocalLimitOrderRecord)
    → changed_at key change os ≡ none
    → order_at key os ≡ none
unfolding changed_at order_at
changed_at-none key change [] h = refl
changed_at-none key change (o ∷ os) h = elim (Bool-cases (str_eq (build_order_key o) key)) [
  | inl same ↦ cc (rw (same, changed_at) at h)
  | inr other ↦ elim (Option-cases (changed_at key change os)) [
    | inl gone ↦ rw other (changed_at-none key change os gone)
    | inr (xs, there) ↦ cc (rw (other, there, changed_at) at h)
  ]
]

skip_twice :
    {A : Type 0} (x y z : A) (a key k : String)
    → a ≡ key
    → (if str_eq key k then x else y) ≡ (if str_eq key k then x else if str_eq a k then z else y)
skip_twice x y z a key k same = elim (Bool-cases (str_eq key k)) [
  | inl yes_same ↦ rw yes_same
  | inr no_same ↦ rw (same, no_same)
]

pub swap_tests :
    {A : Type 0} (x y z : A) (a key k : String)
    → str_eq a key ≡ false
    → (if str_eq a k then z else if str_eq key k then x else y)
      ≡ (if str_eq key k then x else if str_eq a k then z else y)
swap_tests x y z a key k other = ground (arith, eq_iff a key, eq_iff a k, eq_iff key k)

build_order_key-merged :
    (order old : LocalLimitOrderRecord) → build_order_key (merged order old) ≡ build_order_key order
unfolding build_order_key merged
build_order_key-merged order old = refl

pub order_at-changed_at :
    (key k : String) (change : LocalLimitOrderRecord → LocalLimitOrderRecord)
    (os xs : List LocalLimitOrderRecord)
    → ((o : LocalLimitOrderRecord) → build_order_key o ≡ key → build_order_key (change o) ≡ key)
    → changed_at key change os ≡ some xs
    → (old : LocalLimitOrderRecord) × (order_at key os ≡ some old)
      × (order_at k xs ≡ (if str_eq key k then some (change old) else order_at k os))
unfolding changed_at order_at
order_at-changed_at key k change [] xs keeps h = cc
order_at-changed_at key k change (o ∷ os) xs keeps h =
    elim (Bool-cases (str_eq (build_order_key o) key)) [
      | inl same ↦
          let named : build_order_key o ≡ key = (eq_iff (build_order_key o) key).0 same in
          let first : change o ∷ os ≡ xs = some-injective _ _ (rw (same, changed_at) at h) in
          (
            o,
            rw same,
            rw (← first, keeps o named)
                (skip_twice (some (change o)) (order_at k os) (some o) (build_order_key o) key k
                  named),
          )
      | inr other ↦ elim (Option-cases (changed_at key change os)) [
        | inl gone ↦ cc (rw (other, gone, changed_at) at h)
        | inr (ys, there) ↦
            let next : o ∷ ys ≡ xs = some-injective _ _ (rw (other, there, changed_at) at h) in
            let (old, found, kept) = order_at-changed_at key k change os ys keeps there in
            (
              old,
              rw other found,
              rw (← next, kept)
                  (swap_tests (some (change old)) (order_at k os) (some o) (build_order_key o) key k
                    other),
            )
      ]
    ]

order_at-upserted :
    (k : String) (order : LocalLimitOrderRecord) (os : List LocalLimitOrderRecord)
    → order_at k (upserted order os) ≡ (
        if str_eq (build_order_key order) k
        then some (merged_with order (order_at (build_order_key order) os))
        else order_at k os)
unfolding upserted order_at
order_at-upserted k order os =
    elim (Option-cases (changed_at (build_order_key order) (merged order) os)) [
      | inl new ↦ rw (new, upserted, changed_at-none (build_order_key order) (merged order) os new)
      | inr (xs, there) ↦
          let (old, found, kept) =
            order_at-changed_at (build_order_key order) k (merged order) os xs
              (λ o same. build_order_key-merged order o) there in
          rw (there, upserted, found, ← merged-merged_with order old) kept
    ]

pub changed_at-IsKeyed :
    (key : String) (change : LocalLimitOrderRecord → LocalLimitOrderRecord)
    (os xs : List LocalLimitOrderRecord)
    → ((o : LocalLimitOrderRecord) → build_order_key o ≡ key → build_order_key (change o) ≡ key)
    → IsKeyed os
    → changed_at key change os ≡ some xs
    → IsKeyed xs
unfolding changed_at
changed_at-IsKeyed key change [] xs keeps keyed h = cc
changed_at-IsKeyed key change (o ∷ os) xs keeps (once, keyed) h =
    elim (Bool-cases (str_eq (build_order_key o) key)) [
      | inl same ↦
          let named : build_order_key o ≡ key = (eq_iff (build_order_key o) key).0 same in
          let first : change o ∷ os ≡ xs = some-injective _ _ (rw (same, changed_at) at h) in
          rw (← first) (rw (keeps o named, ← named) once, keyed)
      | inr other ↦ elim (Option-cases (changed_at key change os)) [
        | inl gone ↦ cc (rw (other, gone, changed_at) at h)
        | inr (ys, there) ↦
            let next : o ∷ ys ≡ xs = some-injective _ _ (rw (other, there, changed_at) at h) in
            let (old, found, kept) =
              order_at-changed_at key (build_order_key o) change os ys keeps there in
            let unlike : str_eq key (build_order_key o) ≡ false =
              ground (arith, eq_iff key (build_order_key o), eq_iff (build_order_key o) key) in
            rw (← next)
              (kept ∙ rw unlike once, changed_at-IsKeyed key change os ys keeps keyed there)
      ]
    ]

-- Recording an order in a storage that is there changes what is stored under its key and under no other:
-- the order is stored there, with what the stored one has and it has not, and with the stored one's
-- date of creation if that is not empty.
pub order_at-upsert :
    (k : String) (order : LocalLimitOrderRecord) (s : Storage)
    → s.available ≡ true
    → order_at k (read_stored_limit_orders (upsert_local_limit_order order s)) ≡ (
        if str_eq (build_order_key order) k
        then some
            (merged_with order (order_at (build_order_key order) (read_stored_limit_orders s)))
        else order_at k (read_stored_limit_orders s))
unfolding upsert_local_limit_order read_stored_limit_orders write_stored_limit_orders
order_at-upsert k order s there = rw there (order_at-upserted k order s.orders)

upserted-IsKeyed :
    (order : LocalLimitOrderRecord) (os : List LocalLimitOrderRecord)
    → IsKeyed os
    → IsKeyed (upserted order os)
unfolding upserted
upserted-IsKeyed order os keyed =
    elim (Option-cases (changed_at (build_order_key order) (merged order) os)) [
      | inl new ↦
          rw (new, upserted) (changed_at-none (build_order_key order) (merged order) os new, keyed)
      | inr (xs, there) ↦
          rw (there, upserted)
            (changed_at-IsKeyed (build_order_key order) (merged order) os xs
              (λ o same. build_order_key-merged order o) keyed there)
    ]

-- Where no two stored orders share a key, none do after an order is recorded.
pub upsert-IsKeyed :
    (order : LocalLimitOrderRecord) (s : Storage)
    → IsKeyed (read_stored_limit_orders s)
    → IsKeyed (read_stored_limit_orders (upsert_local_limit_order order s))
unfolding upsert_local_limit_order read_stored_limit_orders write_stored_limit_orders
upsert-IsKeyed order s keyed = elim (Bool-cases s.available) [
  | inl there ↦ rw there (upserted-IsKeyed order s.orders (rw there at keyed))
  | inr gone ↦ rw gone tt
]
