-- ===== src/Api/Orders/Handlers/Laws.antt =====
-- What the answers of the handlers show.
use flux_swap_dex.Common.{
  String, ◌∙◌, true, ◌≡◌, ◌≢◌, refl, ap, inl, inr, All, ◌⊎◌, length, length-map,
}
use flux_swap_dex.Api.Values.{Value, object, Failure, Attempt, ok, failed, >>=-eq-ok, Engine}
use flux_swap_dex.Api.Backend.{
  CreateOrderPayload, CancelOrdersPayload, ListOrdersPayload, GrpcCreateOrderResponse,
  GrpcCancelOrdersResponse, GrpcListOrdersResponse, Executor, create_order, cancel_orders,
  list_orders, with_client, with_client-eq-ok, status_of,
}
use flux_swap_dex.Api.Orders.{normalize_create_order_body, normalize_cancel_orders_body}
use flux_swap_dex.Api.Orders.Cancel.{IsCancel, normalize_cancel_orders_body-IsCancel}
use flux_swap_dex.Api.Orders.Create.{
  IsOrder, create_order_body, normalize_create_order_body-IsOrder, normalize_create_order_body-body,
}
use flux_swap_dex.Api.Orders.Sources.{
  IsOrderOf, IsCancelOf, normalize_create_order_body-IsOrderOf,
  normalize_cancel_orders_body-IsCancelOf,
}
use flux_swap_dex.Api.Orders.Query.{SearchParams, normalize_list_orders_query}
use flux_swap_dex.Api.Orders.Query.Laws.{IsQuery, normalize_list_orders_query-IsQuery}
use flux_swap_dex.Api.Orders.Records.{IsUsable, map_orders-IsUsable}
use flux_swap_dex.Api.Orders.Handlers.{
  or_list, answer_created, answer_cancelled, answer_listed, post, delete, created_from,
  cancelled_from, listed_from, get_orders, map_result, first_chain_id,
}

attempted : {A : Type 0} (m : Attempt A) → ((a : A) × (m ≡ ok a)) ⊎ ((f : Failure) × (m ≡ failed f))
attempted (ok a) = inl (a, refl)
attempted (failed f) = inr (f, refl)

pair_or : {A B : Type 0} → A × B → Attempt (A × B) → A × B
pair_or d (ok a) = a
pair_or d (failed x) = d

pair_inj :
    {A B : Type 0} {a c : A} {b d : B}
    → ◌≡◌ {A = Attempt (A × B)} (ok (a, b)) (ok (c, d))
    → (a ≡ c) × (b ≡ d)
unfolding pair_or
pair_inj {A} {B} {a} {c} {b} {d} h =
    (ap (λ m. (pair_or (a, b) m).0) h, ap (λ m. (pair_or (a, b) m).1) h)

module _ (e : Engine) (x : Executor) where
  created_from-eq-ok :
      (json : Attempt Value) (r : GrpcCreateOrderResponse)
      → created_from e x json ≡ ok r
      → (f : String → Value) × (p : CreateOrderPayload) × (json ≡ ok (object f))
        × IsOrderOf e f p
        × IsOrder p
        × (x.available ≡ true)
        × (x.create p ≡ ok r)
  unfolding created_from create_order
  created_from-eq-ok json r h =
      let (body, r0, h0) = >>=-eq-ok json _ h in
      let (p, r1, h1) = >>=-eq-ok (normalize_create_order_body e body) _ h0 in
      let (there, called) = with_client-eq-ok x (x.create p) r h1 in
      let (f, same, read) = normalize_create_order_body-IsOrderOf e body p r1 in
      (f, p, r0 ∙ ap ok same, read, normalize_create_order_body-IsOrder e body p r1, there, called)

  taken :
      (f : String → Value) (q p : CancelOrdersPayload) (s r : GrpcCancelOrdersResponse)
      → IsCancelOf e f q
      → IsCancel q
      → (x.available ≡ true) × (x.cancel q ≡ ok s)
      → q ≡ p
      → s ≡ r
      → IsCancelOf e f p × IsCancel p × (x.available ≡ true) × (x.cancel p ≡ ok r)
  taken f q p s r read cancel (there, called) same_q same_s =
      rw (← same_q, ← same_s) (read, cancel, there, called)

  cancelled_from-eq-ok :
      (json : Attempt Value) (p : CancelOrdersPayload) (r : GrpcCancelOrdersResponse)
      → cancelled_from e x json ≡ ok (p, r)
      → (f : String → Value) × (json ≡ ok (object f))
        × IsCancelOf e f p
        × IsCancel p
        × (x.available ≡ true)
        × (x.cancel p ≡ ok r)
  unfolding cancelled_from cancel_orders
  cancelled_from-eq-ok json p r h =
      let (body, r0, h0) = >>=-eq-ok json _ h in
      let (q, r1, h1) = >>=-eq-ok (normalize_cancel_orders_body e body) _ h0 in
      let (s, r2, h2) = >>=-eq-ok (with_client x (x.cancel q)) _ h1 in
      let (same_q, same_s) = pair_inj h2 in
      let (f, same, read) = normalize_cancel_orders_body-IsCancelOf e body q r1 in
      let (said, cancel, there, called) =
        taken f q p s r read (normalize_cancel_orders_body-IsCancel e body q r1)
          (with_client-eq-ok x (x.cancel q) s r2) same_q same_s in
      (f, r0 ∙ ap ok same, said, cancel, there, called)

  listed_from-eq-ok :
      (params : SearchParams) (p : ListOrdersPayload) (r : GrpcListOrdersResponse)
      → listed_from e x params ≡ ok (p, r)
      → IsQuery p
  unfolding listed_from
  listed_from-eq-ok params p r h =
      let ((view, q), r0, h0) = >>=-eq-ok (normalize_list_orders_query e params) _ h in
      let (s, r1, h1) = >>=-eq-ok (list_orders x q view) _ h0 in
      rw (← (pair_inj h1).0) (normalize_list_orders_query-IsQuery e params view q r0)

  -- An answer of `POST` that has not status 500 is the service's own: the body was an object, and the service
  -- has taken the order that it says, each field the body's under its name, with texts trimmed and none
  -- blank, a positive chain id, and the source "frontend" where the body has none; the answer is the
  -- service's response, with status 400 where its notice says that it has failed.
  pub post-answer :
      (json : Attempt Value)
      → (post e x json).status ≢ 500
      → (f : String → Value) × (p : CreateOrderPayload) × (r : GrpcCreateOrderResponse) × (json
          ≡ ok (object f))
        × IsOrderOf e f p
        × IsOrder p
        × (x.available ≡ true)
        × (x.create p ≡ ok r)
        × (post e x json ≡ record {
          status = status_of r.notice;
          body = record { order = r.order; notice = r.notice };
        })
  unfolding post create_order answer_created
  post-answer json good = elim (attempted (created_from e x json)) [
    | inr (f, bad) ↦ absurd (good (rw (bad, post)))
    | inl (r, done) ↦
        let (f, p, sent, read, order, there, called) = created_from-eq-ok json r done in
        (f, p, r, sent, read, order, there, called, rw (done, post))
  ]

  -- A complete order that is sent to an offered service which takes it is answered with the service's
  -- response.
  pub post-body :
      (p : CreateOrderPayload) (r : GrpcCreateOrderResponse)
      → IsOrder p
      → x.available ≡ true
      → x.create p ≡ ok r
      → post e x (ok (create_order_body p)) ≡ record {
        status = status_of r.notice;
        body = record { order = r.order; notice = r.notice };
      }
  unfolding post created_from create_order with_client answer_created
  post-body p r order there taken = rw (normalize_create_order_body-body e p order, there, taken)

  -- An answer of `DELETE` that has not status 500 is the service's own: the body was an object with a list of
  -- orders, and the service has taken the cancellation that it says, with an order for each item, in the items'
  -- order and each field the item's under its name, and with the body's hash of the transaction; texts are
  -- trimmed, none but a reason is blank, and there is an order. The answer has as many results as the service's
  -- response, with status 400 where its notice says that it has failed.
  pub delete-answer :
      (json : Attempt Value)
      → (delete e x json).status ≢ 500
      → (f : String → Value) × (p : CancelOrdersPayload) × (r : GrpcCancelOrdersResponse) × (json
          ≡ ok (object f))
        × IsCancelOf e f p
        × IsCancel p
        × (x.available ≡ true)
        × (x.cancel p ≡ ok r)
        × ((delete e x json).status ≡ status_of r.notice)
        × (length (delete e x json).body.results ≡ length (or_list r.results))
  unfolding delete answer_cancelled
  delete-answer json good = elim (attempted (cancelled_from e x json)) [
    | inr (f, bad) ↦ absurd (good (rw (bad, delete)))
    | inl ((p, r), done) ↦
        let (f, sent, read, cancel, there, called) = cancelled_from-eq-ok json p r done in
        (
          f,
          p,
          r,
          sent,
          read,
          cancel,
          there,
          called,
          rw (done, delete),
          rw (done, delete)
              (length-map (or_list r.results) (map_result e x (first_chain_id p.orders))),
        )
  ]

  -- Every order in an answer of `GET` has a hash and a positive safe chain id, whatever the query
  -- and the service's response are.
  pub get_orders-IsUsable :
      (params : SearchParams) → All IsUsable (get_orders e x params).body.orders
  unfolding get_orders answer_listed
  get_orders-IsUsable params = elim (attempted (listed_from e x params)) [
    | inr (f, bad) ↦ rw (bad, get_orders) tt
    | inl ((p, r), done) ↦
        rw (done, get_orders)
          (map_orders-IsUsable e (or_list r.orders) p.chain_id
            (listed_from-eq-ok params p r done).chain_id)
  ]
