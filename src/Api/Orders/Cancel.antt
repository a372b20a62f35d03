-- ===== src/Api/Orders/Cancel.antt =====
-- Cancelling orders: the payloads that `normalizeCancelOrdersBody` makes, and those that it keeps.
use flux_swap_dex.Common.{
  ℕ, suc, String, List, [], ◌∷◌, str_eq, if◌then◌else◌, ◌≡◌, ◌≢◌, refl, ap, Bool-cases, inl, inr,
  All,
}
use flux_swap_dex.Common.Int.{pos}
use flux_swap_dex.Common.Text.{trim, is_empty, trim_idem}
use flux_swap_dex.Api.Values.{
  whole, Value, undefined, number, text, array, object, Items, end, item, Attempt, ok, failed,
  >>=-eq-ok, Engine, to_number, field, filled, or_else,
}
use flux_swap_dex.Api.Backend.{CancelOrderItemPayload, CancelOrdersPayload}
use flux_swap_dex.Api.Orders.{
  require_string, require_chain_id, normalize_cancel_order_item, normalize_items, some_items,
  normalize_cancel_orders_body,
}
use flux_swap_dex.Api.Orders.Payloads.{
  IsTrimmed, IsChainId, require_string-IsTrimmed, require_chain_id-IsChainId,
}

-- A complete item: only the reason may be empty.
pub record IsCancelItem (p : CancelOrderItemPayload) : Type 0 where
  pub chain_id : IsChainId p.chain_id
  pub settlement_address : IsTrimmed p.settlement_address
  pub order_hash : IsTrimmed p.order_hash
  pub maker : IsTrimmed p.maker
  pub reason : or_else (filled (text p.reason)) "" ≡ p.reason

pub record IsCancel (p : CancelOrdersPayload) : Type 0 where
  pub some_orders : p.orders ≢ []
  pub orders : All IsCancelItem p.orders
  pub cancel_tx_hash : IsTrimmed p.cancel_tx_hash

-- The payload as the browser would send it.
unfoldable pub cancel_item_field : CancelOrderItemPayload → String → Value
cancel_item_field p name =
    if str_eq name "chainId"
    then number (whole (pos p.chain_id))
    else if str_eq name "settlementAddress"
    then text p.settlement_address
    else if str_eq name "orderHash"
    then text p.order_hash
    else if str_eq name "maker"
    then text p.maker
    else if str_eq name "reason"
    then text p.reason
    else undefined

abbrev pub cancel_items : List CancelOrderItemPayload → Items
cancel_items [] = end
cancel_items (p ∷ rest) = item (object (cancel_item_field p)) (cancel_items rest)

unfoldable pub cancel_field : CancelOrdersPayload → String → Value
unfolding cancel_item_field
cancel_field p name =
    if str_eq name "orders"
    then array (cancel_items p.orders)
    else if str_eq name "cancelTxHash"
    then text p.cancel_tx_hash
    else undefined

abbrev pub cancel_body : CancelOrdersPayload → Value
cancel_body p = object (cancel_field p)

reason_kept :
    (v : Value) → or_else (filled (text (or_else (filled v) ""))) "" ≡ or_else (filled v) ""
unfolding filled
reason_kept (text s) = elim (Bool-cases (is_empty (trim s))) [
  | inl blank ↦ rw blank
  | inr there ↦ rw (there, trim_idem s, there)
]
reason_kept v = refl

value_of : {A : Type 0} → A → Attempt A → A
value_of d (ok a) = a
value_of d (failed x) = d

ok_inj : {A : Type 0} {a b : A} → ok a ≡ ok b → a ≡ b
unfolding value_of
ok_inj {A} {a} h = ap (value_of a) h

module _ (e : Engine) where
  item-IsCancelItem :
      (v : Value) (index : ℕ) (p : CancelOrderItemPayload)
      → normalize_cancel_order_item e v index ≡ ok p
      → IsCancelItem p
  unfolding normalize_cancel_order_item
  item-IsCancelItem v index p h =
      let (chain_id, r0, h0) = >>=-eq-ok (require_chain_id e v _) _ h in
      let (settlement_address, r1, h1) = >>=-eq-ok (require_string e v "settlementAddress") _ h0 in
      let (order_hash, r2, h2) = >>=-eq-ok (require_string e v "orderHash") _ h1 in
      let (maker, r3, h3) = >>=-eq-ok (require_string e v "maker") _ h2 in
      let (reason, r4, h4) = >>=-eq-ok (field e v "reason") _ h3 in
      rw (← ok_inj h4) (record {
        chain_id = require_chain_id-IsChainId e v _ chain_id r0;
        settlement_address = require_string-IsTrimmed e v _ settlement_address r1;
        order_hash = require_string-IsTrimmed e v _ order_hash r2;
        maker = require_string-IsTrimmed e v _ maker r3;
        reason = reason_kept reason;
      })

  items-All :
      (vs : Items) (index : ℕ) (ps : List CancelOrderItemPayload)
      → normalize_items e vs index ≡ ok ps
      → All IsCancelItem ps
  unfolding normalize_items
  items-All end index ps h = rw (← ok_inj h) tt
  items-All (item v vs) index ps h =
      let (first, r0, h0) = >>=-eq-ok (normalize_cancel_order_item e v index) _ h in
      let (others, r1, h1) = >>=-eq-ok (normalize_items e vs (suc index)) _ h0 in
      rw (← ok_inj h1) (item-IsCancelItem v index first r0, items-All vs (suc index) others r1)

  items-some :
      (v : Value) (vs : Items) (index : ℕ) (ps : List CancelOrderItemPayload)
      → some_items e v ≡ ok vs
      → normalize_items e vs index ≡ ok ps
      → ps ≢ []
  unfolding some_items normalize_items
  items-some (array (item v rest)) (item w vs) index ps there h =
      let (first, r0, h0) = >>=-eq-ok (normalize_cancel_order_item e w index) _ h in
      let (others, r1, h1) = >>=-eq-ok (normalize_items e vs (suc index)) _ h0 in
      λ none_left. cc (ok_inj h1, none_left)
  items-some v vs index ps there h = cc

  -- Every payload that the body of a request is made into names at least one order, its hash is trimmed and
  -- not blank, and each of its orders has a positive safe chain id and trimmed texts that are not
  -- blank, but for the reason, which may be empty.
  pub normalize_cancel_orders_body-IsCancel :
      (body : Value) (p : CancelOrdersPayload)
      → normalize_cancel_orders_body e body ≡ ok p
      → IsCancel p
  unfolding normalize_cancel_orders_body
  normalize_cancel_orders_body-IsCancel body p h =
      let (orders, r0, h0) = >>=-eq-ok (field e body "orders") _ h in
      let (items, r1, h1) = >>=-eq-ok (some_items e orders) _ h0 in
      let (checked, r2, h2) = >>=-eq-ok (normalize_items e items 0) _ h1 in
      let (cancel_tx_hash, r3, h3) = >>=-eq-ok (require_string e body "cancelTxHash") _ h2 in
      rw (← ok_inj h3) (record {
        some_orders = items-some orders items 0 checked r1 r2;
        orders = items-All items 0 checked r2;
        cancel_tx_hash = require_string-IsTrimmed e body _ cancel_tx_hash r3;
      })

  item-kept :
      (p : CancelOrderItemPayload) (index : ℕ)
      → IsCancelItem p
      → normalize_cancel_order_item e (object (cancel_item_field p)) index ≡ ok p
  unfolding normalize_cancel_order_item cancel_item_field require_string require_chain_id field
      to_number
  item-kept p index h = rw (h.chain_id, h.settlement_address, h.order_hash, h.maker, h.reason)

  items-kept :
      (ps : List CancelOrderItemPayload) (index : ℕ)
      → All IsCancelItem ps
      → normalize_items e (cancel_items ps) index ≡ ok ps
  unfolding normalize_items
  items-kept [] index h = refl
  items-kept (p ∷ ps) index (h, hs) = rw (item-kept p index h, items-kept ps (suc index) hs)

  some_items-cancel_items :
      (ps : List CancelOrderItemPayload)
      → ps ≢ []
      → some_items e (array (cancel_items ps)) ≡ ok (cancel_items ps)
  unfolding some_items
  some_items-cancel_items [] h = absurd (h refl)
  some_items-cancel_items (p ∷ ps) h = refl

  -- A complete cancellation that is sent as a body is not changed.
  pub normalize_cancel_orders_body-body :
      (p : CancelOrdersPayload) → IsCancel p → normalize_cancel_orders_body e (cancel_body p) ≡ ok p
  unfolding normalize_cancel_orders_body cancel_field field require_string
  normalize_cancel_orders_body-body p h = rw (
    some_items-cancel_items p.orders h.some_orders,
    items-kept p.orders 0 h.orders,
    h.cancel_tx_hash,
  )
