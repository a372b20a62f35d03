-- ===== src/Api/Orders/Create.antt =====
-- Creating an order: the payloads that `normalizeCreateOrderBody` makes, and those that it keeps.
use flux_swap_dex.Common.{String, Option, none, some, str_eq, if◌then◌else◌, ◌≡◌, refl, ap}
use flux_swap_dex.Common.Int.{pos}
use flux_swap_dex.Api.Values.{
  whole, Value, undefined, number, text, object, Attempt, ok, failed, >>=-eq-ok, Engine, to_number,
  field, filled, or_else,
}
use flux_swap_dex.Api.Backend.{CreateOrderPayload}
use flux_swap_dex.Api.Orders.{require_string, require_chain_id, normalize_create_order_body}
use flux_swap_dex.Api.Orders.Payloads.{
  IsTrimmed, IsChainId, filled-IsTrimmed, require_string-IsTrimmed, require_chain_id-IsChainId,
}

-- A complete order: a positive chain id and no blank field.
pub record IsOrder (p : CreateOrderPayload) : Type 0 where
  pub chain_id : IsChainId p.chain_id
  pub settlement_address : IsTrimmed p.settlement_address
  pub order_hash : IsTrimmed p.order_hash
  pub maker : IsTrimmed p.maker
  pub input_token : IsTrimmed p.input_token
  pub output_token : IsTrimmed p.output_token
  pub amount_in : IsTrimmed p.amount_in
  pub min_amount_out : IsTrimmed p.min_amount_out
  pub max_executor_reward_bps : IsTrimmed p.max_executor_reward_bps
  pub trigger_price_x18 : IsTrimmed p.trigger_price_x18
  pub expiry : IsTrimmed p.expiry
  pub nonce : IsTrimmed p.nonce
  pub recipient : IsTrimmed p.recipient
  pub signature : IsTrimmed p.signature
  pub source : IsTrimmed p.source

-- The payload as the browser would send it.
unfoldable pub create_order_field : CreateOrderPayload → String → Value
create_order_field p name =
    if str_eq name "chainId"
    then number (whole (pos p.chain_id))
    else if str_eq name "settlementAddress"
    then text p.settlement_address
    else if str_eq name "orderHash"
    then text p.order_hash
    else if str_eq name "maker"
    then text p.maker
    else if str_eq name "inputToken"
    then text p.input_token
    else if str_eq name "outputToken"
    then text p.output_token
    else if str_eq name "amountIn"
    then text p.amount_in
    else if str_eq name "minAmountOut"
    then text p.min_amount_out
    else if str_eq name "maxExecutorRewardBps"
    then text p.max_executor_reward_bps
    else if str_eq name "triggerPriceX18"
    then text p.trigger_price_x18
    else if str_eq name "expiry"
    then text p.expiry
    else if str_eq name "nonce"
    then text p.nonce
    else if str_eq name "recipient"
    then text p.recipient
    else if str_eq name "signature"
    then text p.signature
    else if str_eq name "source"
    then text p.source
    else undefined

abbrev pub create_order_body : CreateOrderPayload → Value
create_order_body p = object (create_order_field p)

in_attempt : CreateOrderPayload → Attempt CreateOrderPayload → CreateOrderPayload
in_attempt d (ok p) = p
in_attempt d (failed x) = d

ok_inj : {p q : CreateOrderPayload} → ok p ≡ ok q → p ≡ q
unfolding in_attempt
ok_inj {p} h = ap (in_attempt p) h

or_else-IsTrimmed :
    (o : Option String) (v : Value) → filled v ≡ o → IsTrimmed (or_else o "frontend")
unfolding filled
or_else-IsTrimmed none v h = refl
or_else-IsTrimmed (some s) v h = filled-IsTrimmed v s h

module _ (e : Engine) where
  -- Every payload that the body of a request is made into is a complete order: its chain id is a positive
  -- safe integer, and each of its texts is trimmed and not blank, `source` included.
  pub normalize_create_order_body-IsOrder :
      (body : Value) (p : CreateOrderPayload)
      → normalize_create_order_body e body ≡ ok p
      → IsOrder p
  unfolding normalize_create_order_body
  normalize_create_order_body-IsOrder body p h =
      let (chain_id, r0, h0) = >>=-eq-ok (require_chain_id e body _) _ h in
      let (settlement_address, r1, h1) =
        >>=-eq-ok (require_string e body "settlementAddress") _ h0 in
      let (order_hash, r2, h2) = >>=-eq-ok (require_string e body "orderHash") _ h1 in
      let (maker, r3, h3) = >>=-eq-ok (require_string e body "maker") _ h2 in
      let (input_token, r4, h4) = >>=-eq-ok (require_string e body "inputToken") _ h3 in
      let (output_token, r5, h5) = >>=-eq-ok (require_string e body "outputToken") _ h4 in
      let (amount_in, r6, h6) = >>=-eq-ok (require_string e body "amountIn") _ h5 in
      let (min_amount_out, r7, h7) = >>=-eq-ok (require_string e body "minAmountOut") _ h6 in
      let (max_executor_reward_bps, r8, h8) =
        >>=-eq-ok (require_string e body "maxExecutorRewardBps") _ h7 in
      let (trigger_price_x18, r9, h9) = >>=-eq-ok (require_string e body "triggerPriceX18") _ h8 in
      let (expiry, r10, h10) = >>=-eq-ok (require_string e body "expiry") _ h9 in
      let (nonce, r11, h11) = >>=-eq-ok (require_string e body "nonce") _ h10 in
      let (recipient, r12, h12) = >>=-eq-ok (require_string e body "recipient") _ h11 in
      let (signature, r13, h13) = >>=-eq-ok (require_string e body "signature") _ h12 in
      let (source, r14, h14) = >>=-eq-ok (field e body "source") _ h13 in
      let same = ok_inj h14 in
      rw (← same) (record {
        chain_id = require_chain_id-IsChainId e body _ chain_id r0;
        settlement_address =
            require_string-IsTrimmed e body "settlementAddress" settlement_address r1;
        order_hash = require_string-IsTrimmed e body "orderHash" order_hash r2;
        maker = require_string-IsTrimmed e body "maker" maker r3;
        input_token = require_string-IsTrimmed e body "inputToken" input_token r4;
        output_token = require_string-IsTrimmed e body "outputToken" output_token r5;
        amount_in = require_string-IsTrimmed e body "amountIn" amount_in r6;
        min_amount_out = require_string-IsTrimmed e body "minAmountOut" min_amount_out r7;
        max_executor_reward_bps =
            require_string-IsTrimmed e body "maxExecutorRewardBps" max_executor_reward_bps r8;
        trigger_price_x18 = require_string-IsTrimmed e body "triggerPriceX18" trigger_price_x18 r9;
        expiry = require_string-IsTrimmed e body "expiry" expiry r10;
        nonce = require_string-IsTrimmed e body "nonce" nonce r11;
        recipient = require_string-IsTrimmed e body "recipient" recipient r12;
        signature = require_string-IsTrimmed e body "signature" signature r13;
        source = or_else-IsTrimmed (filled source) source refl;
      })

  text_there :
      (p : CreateOrderPayload) (name s : String)
      → create_order_field p name ≡ text s
      → IsTrimmed s
      → require_string e (create_order_body p) name ≡ ok s
  unfolding require_string field
  text_there p name s there trimmed = rw (there, trimmed)

  -- A complete order that is sent as a body is not changed.
  pub normalize_create_order_body-body :
      (p : CreateOrderPayload)
      → IsOrder p
      → normalize_create_order_body e (create_order_body p) ≡ ok p
  unfolding normalize_create_order_body create_order_field require_chain_id field to_number
  normalize_create_order_body-body p h = rw (
    h.chain_id,
    text_there p "settlementAddress" p.settlement_address refl h.settlement_address,
    text_there p "orderHash" p.order_hash refl h.order_hash,
    text_there p "maker" p.maker refl h.maker,
    text_there p "inputToken" p.input_token refl h.input_token,
    text_there p "outputToken" p.output_token refl h.output_token,
    text_there p "amountIn" p.amount_in refl h.amount_in,
    text_there p "minAmountOut" p.min_amount_out refl h.min_amount_out,
    text_there p "maxExecutorRewardBps" p.max_executor_reward_bps refl h.max_executor_reward_bps,
    text_there p "triggerPriceX18" p.trigger_price_x18 refl h.trigger_price_x18,
    text_there p "expiry" p.expiry refl h.expiry,
    text_there p "nonce" p.nonce refl h.nonce,
    text_there p "recipient" p.recipient refl h.recipient,
    text_there p "signature" p.signature refl h.signature,
    h.source,
  )
