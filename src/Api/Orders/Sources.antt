-- ===== src/Api/Orders/Sources.antt =====
-- Where the payloads of the orders route come from: the fields of the body, one by one.
use flux_swap_dex.Common.{ℕ, suc, String, List, [], ◌∷◌, ◌≡◌, refl, ◌∙◌, sym, ap}
use flux_swap_dex.Common.Int.{pos}
use flux_swap_dex.Api.Values.{
  whole, Value, undefined, null, array, object, Items, end, item, Attempt, ok, failed, >>=-eq-ok,
  Engine, to_number, positive_integer, field, filled, or_else,
}
use flux_swap_dex.Api.Fields.{
  IsTextOf, IsTextOr, filled-IsTextOf, or_else-IsTextOr, positive_integer-whole, field-object,
  positive_field-object,
}
use flux_swap_dex.Api.Backend.{CreateOrderPayload, CancelOrderItemPayload, CancelOrdersPayload}
use flux_swap_dex.Api.Orders.{
  require_string, require_chain_id, normalize_create_order_body, normalize_cancel_order_item,
  normalize_items, some_items, normalize_cancel_orders_body,
}
use flux_swap_dex.Api.Orders.Payloads.{or_throw-eq-ok}

-- The order that an object says: each field is the object's under the name that the browser uses, the chain
-- id as a number and the texts without the white space at their ends.
pub record IsOrderOf (e : Engine) (f : String → Value) (p : CreateOrderPayload) : Type 0 where
  pub chain_id : to_number e (f "chainId") ≡ whole (pos p.chain_id)
  pub settlement_address : IsTextOf (f "settlementAddress") p.settlement_address
  pub order_hash : IsTextOf (f "orderHash") p.order_hash
  pub maker : IsTextOf (f "maker") p.maker
  pub input_token : IsTextOf (f "inputToken") p.input_token
  pub output_token : IsTextOf (f "outputToken") p.output_token
  pub amount_in : IsTextOf (f "amountIn") p.amount_in
  pub min_amount_out : IsTextOf (f "minAmountOut") p.min_amount_out
  pub max_executor_reward_bps : IsTextOf (f "maxExecutorRewardBps") p.max_executor_reward_bps
  pub trigger_price_x18 : IsTextOf (f "triggerPriceX18") p.trigger_price_x18
  pub expiry : IsTextOf (f "expiry") p.expiry
  pub nonce : IsTextOf (f "nonce") p.nonce
  pub recipient : IsTextOf (f "recipient") p.recipient
  pub signature : IsTextOf (f "signature") p.signature
  pub source : IsTextOr "frontend" (f "source") p.source

pub record IsCancelItemOf (e : Engine) (f : String → Value) (p : CancelOrderItemPayload)
    : Type 0 where
  pub chain_id : to_number e (f "chainId") ≡ whole (pos p.chain_id)
  pub settlement_address : IsTextOf (f "settlementAddress") p.settlement_address
  pub order_hash : IsTextOf (f "orderHash") p.order_hash
  pub maker : IsTextOf (f "maker") p.maker
  pub reason : IsTextOr "" (f "reason") p.reason

-- The orders are those of the items, as many and in their order.
abbrev pub AreItemsOf : Engine → Items → List CancelOrderItemPayload → Type 0
AreItemsOf e end [] = Unit
AreItemsOf e (item (object f) vs) (p ∷ ps) = IsCancelItemOf e f p × AreItemsOf e vs ps
AreItemsOf e _ _ = ⊥

abbrev pub AreOrdersOf : Engine → Value → List CancelOrderItemPayload → Type 0
AreOrdersOf e (array vs) ps = AreItemsOf e vs ps
AreOrdersOf e _ ps = ⊥

pub record IsCancelOf (e : Engine) (f : String → Value) (p : CancelOrdersPayload) : Type 0 where
  pub orders : AreOrdersOf e (f "orders") p.orders
  pub cancel_tx_hash : IsTextOf (f "cancelTxHash") p.cancel_tx_hash

value_of : {A : Type 0} → A → Attempt A → A
value_of d (ok a) = a
value_of d (failed x) = d

ok_inj : {A : Type 0} {a b : A} → ok a ≡ ok b → a ≡ b
unfolding value_of
ok_inj {A} {a} h = ap (value_of a) h

module _ (e : Engine) where
  module _ (body : Value) (f : String → Value) (same : body ≡ object f) where
    text_read : (name s : String) → require_string e body name ≡ ok s → IsTextOf (f name) s
    unfolding require_string field
    text_read name s h =
        filled-IsTextOf (f name) s
          (or_throw-eq-ok (filled (f name)) _ s (ap (λ b. require_string e b name) (sym same) ∙ h))

    or_default_read :
        (name default : String) (v : Value)
        → field e body name ≡ ok v
        → IsTextOr default (f name) (or_else (filled v) default)
    or_default_read name default v h =
        rw (← field-object e f v name (ap (λ b. field e b name) (sym same) ∙ h))
          (or_else-IsTextOr default (f name))

    chain_id_read :
        (message : String) (n : ℕ)
        → require_chain_id e body message ≡ ok n
        → to_number e (f "chainId") ≡ whole (pos n)
    unfolding require_chain_id field
    chain_id_read message n h = positive_integer-whole (to_number e (f "chainId")) n (
        or_throw-eq-ok (positive_integer (to_number e (f "chainId"))) message n
          (ap (λ b. require_chain_id e b message) (sym same) ∙ h))

  chain_id-object :
      (body : Value) (message : String) (n : ℕ)
      → require_chain_id e body message ≡ ok n
      → (f : String → Value) × (body ≡ object f)
  unfolding require_chain_id
  chain_id-object body message n h =
      let (value, read, checked) = >>=-eq-ok (field e body "chainId") _ h in
      let (f, same, at_name) =
        positive_field-object e body value "chainId" n read
          (or_throw-eq-ok (positive_integer (to_number e value)) message n checked) in
      (f, same)

  order_read :
      (body : Value) (f : String → Value) (p : CreateOrderPayload)
      → body ≡ object f
      → normalize_create_order_body e body ≡ ok p
      → IsOrderOf e f p
  unfolding normalize_create_order_body
  order_read body f p same h =
      let (chain_id, r0, h0) = >>=-eq-ok (require_chain_id e body _) _ h in
      let (settlement_address, r1, h1) =
        >>=-eq-ok (require_string e body "settlementAddress") _ h0 in
      let (order_hash, r2, h2) = >>=-eq-ok (require_string e body "orderHash") _ h1 in
      let (maker, r3, h3) = >>=-eq-ok (require_string e body "maker") _ h2 in
      let (input_token, r4, h4) = >>=-eq-ok (require_string e body "inputToken") _ h3 in
      let (output_token, r5, h5) = >>=-eq-ok (require_string e body "outputToken") _ h4 in
      let (amount_in, r6, h6) = >>=-eq-ok (require_string e body "amountIn") _ h5 in
      let (min_amount_out, r7, h7) = >>=-eq-ok (require_string e body "minAmountOut") _ h6 in
      let (max_executor_reward_bps, r8, h8) =
        >>=-eq-ok (require_string e body "maxExecutorRewardBps") _ h7 in
      let (trigger_price_x18, r9, h9) = >>=-eq-ok (require_string e body "triggerPriceX18") _ h8 in
      let (expiry, r10, h10) = >>=-eq-ok (require_string e body "expiry") _ h9 in
      let (nonce, r11, h11) = >>=-eq-ok (require_string e body "nonce") _ h10 in
      let (recipient, r12, h12) = >>=-eq-ok (require_string e body "recipient") _ h11 in
      let (signature, r13, h13) = >>=-eq-ok (require_string e body "signature") _ h12 in
      let (source, r14, h14) = >>=-eq-ok (field e body "source") _ h13 in
      let result = ok_inj h14 in
      rw (← result) (record {
        chain_id = chain_id_read body f same _ chain_id r0;
        settlement_address = text_read body f same "settlementAddress" settlement_address r1;
        order_hash = text_read body f same "orderHash" order_hash r2;
        maker = text_read body f same "maker" maker r3;
        input_token = text_read body f same "inputToken" input_token r4;
        output_token = text_read body f same "outputToken" output_token r5;
        amount_in = text_read body f same "amountIn" amount_in r6;
        min_amount_out = text_read body f same "minAmountOut" min_amount_out r7;
        max_executor_reward_bps =
            text_read body f same "maxExecutorRewardBps" max_executor_reward_bps r8;
        trigger_price_x18 = text_read body f same "triggerPriceX18" trigger_price_x18 r9;
        expiry = text_read body f same "expiry" expiry r10;
        nonce = text_read body f same "nonce" nonce r11;
        recipient = text_read body f same "recipient" recipient r12;
        signature = text_read body f same "signature" signature r13;
        source = or_default_read body f same "source" "frontend" source r14;
      })

  -- Every order that a body is made into is the one that the body, which is an object, says.
  pub normalize_create_order_body-IsOrderOf :
      (body : Value) (p : CreateOrderPayload)
      → normalize_create_order_body e body ≡ ok p
      → (f : String → Value) × (body ≡ object f) × IsOrderOf e f p
  unfolding normalize_create_order_body
  normalize_create_order_body-IsOrderOf body p h =
      let (chain_id, r0, h0) = >>=-eq-ok (require_chain_id e body _) _ h in
      let (f, same) = chain_id-object body _ chain_id r0 in (f, same, order_read body f p same h)

  item_read :
      (v : Value) (f : String → Value) (index : ℕ) (p : CancelOrderItemPayload)
      → v ≡ object f
      → normalize_cancel_order_item e v index ≡ ok p
      → IsCancelItemOf e f p
  unfolding normalize_cancel_order_item
  item_read v f index p same h =
      let (chain_id, r0, h0) = >>=-eq-ok (require_chain_id e v _) _ h in
      let (settlement_address, r1, h1) = >>=-eq-ok (require_string e v "settlementAddress") _ h0 in
      let (order_hash, r2, h2) = >>=-eq-ok (require_string e v "orderHash") _ h1 in
      let (maker, r3, h3) = >>=-eq-ok (require_string e v "maker") _ h2 in
      let (reason, r4, h4) = >>=-eq-ok (field e v "reason") _ h3 in
      let result = ok_inj h4 in
      rw (← result) (record {
        chain_id = chain_id_read v f same _ chain_id r0;
        settlement_address = text_read v f same "settlementAddress" settlement_address r1;
        order_hash = text_read v f same "orderHash" order_hash r2;
        maker = text_read v f same "maker" maker r3;
        reason = or_default_read v f same "reason" "" reason r4;
      })

  item-object :
      (v : Value) (index : ℕ) (p : CancelOrderItemPayload)
      → normalize_cancel_order_item e v index ≡ ok p
      → (f : String → Value) × (v ≡ object f)
  unfolding normalize_cancel_order_item
  item-object v index p h =
      let (chain_id, r0, h0) = >>=-eq-ok (require_chain_id e v _) _ h in
      chain_id-object v _ chain_id r0

  items_read :
      (vs : Items) (index : ℕ) (ps : List CancelOrderItemPayload)
      → normalize_items e vs index ≡ ok ps
      → AreItemsOf e vs ps
  unfolding normalize_items
  items_read end index ps h = rw (← ok_inj h) tt
  items_read (item v vs) index ps h =
      let (first, r0, h0) = >>=-eq-ok (normalize_cancel_order_item e v index) _ h in
      let (others, r1, h1) = >>=-eq-ok (normalize_items e vs (suc index)) _ h0 in
      let (f, same) = item-object v index first r0 in
      rw (← ok_inj h1, same)
        (item_read v f index first same r0, items_read vs (suc index) others r1)

  orders_read :
      (v : Value) (vs : Items) (index : ℕ) (ps : List CancelOrderItemPayload)
      → some_items e v ≡ ok vs
      → normalize_items e vs index ≡ ok ps
      → AreOrdersOf e v ps
  unfolding some_items
  orders_read (array (item v rest)) vs index ps there h =
      items_read (item v rest) index ps (ap (λ w. normalize_items e w index) (ok_inj there) ∙ h)
  orders_read v vs index ps there h = cc

  cancel_read :
      (body : Value) (f : String → Value) (p : CancelOrdersPayload)
      → body ≡ object f
      → normalize_cancel_orders_body e body ≡ ok p
      → IsCancelOf e f p
  unfolding normalize_cancel_orders_body
  cancel_read body f p same h =
      let (orders, r0, h0) = >>=-eq-ok (field e body "orders") _ h in
      let (items, r1, h1) = >>=-eq-ok (some_items e orders) _ h0 in
      let (checked, r2, h2) = >>=-eq-ok (normalize_items e items 0) _ h1 in
      let (cancel_tx_hash, r3, h3) = >>=-eq-ok (require_string e body "cancelTxHash") _ h2 in
      let result = ok_inj h3 in
      rw (← result) (record {
        orders =
            rw (field-object e f orders "orders" (ap (λ b. field e b "orders") (sym same) ∙ r0))
              (orders_read orders items 0 checked r1 r2);
        cancel_tx_hash = text_read body f same "cancelTxHash" cancel_tx_hash r3;
      })

  listed-object :
      (body orders : Value) (vs : Items)
      → field e body "orders" ≡ ok orders
      → some_items e orders ≡ ok vs
      → (f : String → Value) × (body ≡ object f)
  unfolding field some_items
  listed-object (object f) orders vs read there = (f, refl)
  listed-object undefined orders vs read there = cc
  listed-object null orders vs read there = cc
  listed-object body orders vs read there = cc (rw (← ok_inj read) at there)

  -- Every cancellation that a body is made into is the one that the body, which is an object, says.
  pub normalize_cancel_orders_body-IsCancelOf :
      (body : Value) (p : CancelOrdersPayload)
      → normalize_cancel_orders_body e body ≡ ok p
      → (f : String → Value) × (body ≡ object f) × IsCancelOf e f p
  unfolding normalize_cancel_orders_body
  normalize_cancel_orders_body-IsCancelOf body p h =
      let (orders, r0, h0) = >>=-eq-ok (field e body "orders") _ h in
      let (items, r1, h1) = >>=-eq-ok (some_items e orders) _ h0 in
      let (f, same) = listed-object body orders items r0 r1 in
      (f, same, cancel_read body f p same h)
