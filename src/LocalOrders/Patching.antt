-- ===== src/LocalOrders/Patching.antt =====
-- Updating a stored order, `patchLocalLimitOrder` of frontend/src/lib/localLimitOrders.ts.
use mathlib.Core.Option
use flux_swap_dex.Common.{
  ℕ, String, true, List, Option, none, some, str_eq, eq_iff, if◌then◌else◌, ◌≡◌, ◌≢◌, refl, ◌∙◌,
  Bool-cases, Option-cases, inl, inr,
}
use flux_swap_dex.LocalOrders.{
  LocalLimitOrderRecord, Updates, Storage, order_key, build_order_key, changed_at, or_old,
  or_old_option, patched, patch_local_limit_order, read_stored_limit_orders,
  write_stored_limit_orders,
}
use flux_swap_dex.LocalOrders.Merging.{order_at, changed_at-none, order_at-changed_at}

-- Updates that leave the three fields of the key alone.
abbrev pub IsInPlace : Updates → Type 0
IsInPlace u = (u.chain_id ≡ none) × (u.settlement_address ≡ none) × (u.order_hash ≡ none)

build_order_key-patched :
    (u : Updates) (o : LocalLimitOrderRecord)
    → IsInPlace u
    → build_order_key (patched u o) ≡ build_order_key o
unfolding build_order_key patched
build_order_key-patched u o (a, b, c) = rw (a, b, c)

unchanged :
    (key k : String) (change : LocalLimitOrderRecord → LocalLimitOrderRecord)
    (os : List LocalLimitOrderRecord)
    → order_at key os ≡ none
    → order_at k os ≡ (if str_eq key k then Option.map change (order_at key os) else order_at k os)
unchanged key k change os missing = elim (Bool-cases (str_eq key k)) [
  | inl same ↦
      let here : order_at k os ≡ none = rw (← (eq_iff key k).0 same) missing in
      rw (same, here, missing)
  | inr other ↦ rw other
]

-- What a field is after an update, which either leaves it out or gives a value for it.
abbrev pub Takes {ℓ} : {A : Type ℓ} → Option A → A → A → Type ℓ
Takes none old new = new ≡ old
Takes (some value) old new = new ≡ value

abbrev pub TakesOption : Option String → Option String → Option String → Type 0
TakesOption none old new = new ≡ old
TakesOption (some value) old new = new ≡ some value

-- An order as the updates make it: each field that they give has their value, each other its old one.
pub record IsUpdated (updates : Updates) (old new : LocalLimitOrderRecord) : Type 0 where
  pub chain_id : Takes updates.chain_id old.chain_id new.chain_id
  pub settlement_address :
      Takes updates.settlement_address old.settlement_address new.settlement_address
  pub order_hash : Takes updates.order_hash old.order_hash new.order_hash
  pub maker : Takes updates.maker old.maker new.maker
  pub input_token : Takes updates.input_token old.input_token new.input_token
  pub output_token : Takes updates.output_token old.output_token new.output_token
  pub amount_in : Takes updates.amount_in old.amount_in new.amount_in
  pub min_amount_out : Takes updates.min_amount_out old.min_amount_out new.min_amount_out
  pub max_executor_reward_bps :
      Takes updates.max_executor_reward_bps old.max_executor_reward_bps new.max_executor_reward_bps
  pub trigger_price_x18 :
      Takes updates.trigger_price_x18 old.trigger_price_x18 new.trigger_price_x18
  pub expiry : Takes updates.expiry old.expiry new.expiry
  pub nonce : Takes updates.nonce old.nonce new.nonce
  pub recipient : Takes updates.recipient old.recipient new.recipient
  pub source : Takes updates.source old.source new.source
  pub status : Takes updates.status old.status new.status
  pub status_reason : TakesOption updates.status_reason old.status_reason new.status_reason
  pub cancelled_tx_hash :
      TakesOption updates.cancelled_tx_hash old.cancelled_tx_hash new.cancelled_tx_hash
  pub created_at : Takes updates.created_at old.created_at new.created_at
  pub updated_at : Takes updates.updated_at old.updated_at new.updated_at

-- What is stored for an updated key: an updated order where there was an order, and nothing where there was none.
abbrev pub IsUpdatedAt :
    Updates → Option LocalLimitOrderRecord → Option LocalLimitOrderRecord → Type 0
IsUpdatedAt u none none = Unit
IsUpdatedAt u (some old) (some new) = IsUpdated u old new
IsUpdatedAt u _ _ = ⊥

takes {ℓ} : {A : Type ℓ} (value : Option A) (old : A) → Takes value old (or_old value old)
takes none old = refl
takes (some value) old = refl

takes_option : (value old : Option String) → TakesOption value old (or_old_option value old)
takes_option none old = refl
takes_option (some value) old = refl

patched-IsUpdated : (u : Updates) (o : LocalLimitOrderRecord) → IsUpdated u o (patched u o)
unfolding patched
patched-IsUpdated u o = record {
  chain_id = takes u.chain_id o.chain_id;
  settlement_address = takes u.settlement_address o.settlement_address;
  order_hash = takes u.order_hash o.order_hash;
  maker = takes u.maker o.maker;
  input_token = takes u.input_token o.input_token;
  output_token = takes u.output_token o.output_token;
  amount_in = takes u.amount_in o.amount_in;
  min_amount_out = takes u.min_amount_out o.min_amount_out;
  max_executor_reward_bps = takes u.max_executor_reward_bps o.max_executor_reward_bps;
  trigger_price_x18 = takes u.trigger_price_x18 o.trigger_price_x18;
  expiry = takes u.expiry o.expiry;
  nonce = takes u.nonce o.nonce;
  recipient = takes u.recipient o.recipient;
  source = takes u.source o.source;
  status = takes u.status o.status;
  status_reason = takes_option u.status_reason o.status_reason;
  cancelled_tx_hash = takes_option u.cancelled_tx_hash o.cancelled_tx_hash;
  created_at = takes u.created_at o.created_at;
  updated_at = takes u.updated_at o.updated_at;
}

map-IsUpdatedAt :
    (u : Updates) (o : Option LocalLimitOrderRecord) → IsUpdatedAt u o (Option.map (patched u) o)
map-IsUpdatedAt u none = tt
map-IsUpdatedAt u (some old) = patched-IsUpdated u old

order_at-patched :
    (k : String) (chain_id : ℕ) (settlement_address order_hash : String) (u : Updates) (s : Storage)
    → s.available ≡ true
    → IsInPlace u
    → order_at k (
        read_stored_limit_orders
          (patch_local_limit_order chain_id settlement_address order_hash u s))
      ≡ (if str_eq (order_key chain_id settlement_address order_hash) k
          then Option.map (patched u) (
              order_at
                (order_key chain_id settlement_address order_hash)
                (read_stored_limit_orders s))
          else order_at k (read_stored_limit_orders s))
unfolding patch_local_limit_order read_stored_limit_orders write_stored_limit_orders
order_at-patched k chain_id settlement_address order_hash u s there in_place =
    let key = order_key chain_id settlement_address order_hash in
    elim (Option-cases (changed_at key (patched u) s.orders)) [
      | inl missing ↦
          rw (there, missing, patch_local_limit_order, there)
            (unchanged key k (patched u) s.orders
              (changed_at-none key (patched u) s.orders missing))
      | inr (xs, found) ↦
          let (old, at_key, kept) =
            order_at-changed_at key k (patched u) s.orders xs
              (λ o same. build_order_key-patched u o in_place ∙ same) found in
          rw (there, found, patch_local_limit_order, there, at_key) kept
    ]

-- Updating an order in a storage that is there, in fields that are not of its key: where an order of that key
-- is stored, each of its fields has the value that the updates give for it, or its old one where they give none;
-- where none is stored, none is afterwards; and what is stored under any other key is not changed.
pub order_at-patch :
    (k : String) (chain_id : ℕ) (settlement_address order_hash : String) (u : Updates) (s : Storage)
    → s.available ≡ true
    → IsInPlace u
    → let before = read_stored_limit_orders s in
      let after =
        read_stored_limit_orders
          (patch_local_limit_order chain_id settlement_address order_hash u s) in
      (order_key chain_id settlement_address order_hash ≡ k
        → IsUpdatedAt u (order_at k before) (order_at k after))
      × (order_key chain_id settlement_address order_hash ≢ k
          → order_at k after ≡ order_at k before)
order_at-patch k chain_id settlement_address order_hash u s there in_place =
    let key = order_key chain_id settlement_address order_hash in
    let changed = order_at-patched k chain_id settlement_address order_hash u s there in_place in
    (
      λ same.
          rw (changed, (eq_iff key k).1 same, same)
            (map-IsUpdatedAt u (order_at k (read_stored_limit_orders s))),
      λ other. elim (Bool-cases (str_eq key k)) [
        | inl same ↦ absurd (other ((eq_iff key k).0 same))
        | inr unlike ↦ rw (changed, unlike)
      ],
    )
