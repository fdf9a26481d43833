-- ===== src/Product/Consumer/Laws.antt =====
-- The stock side of the saga: what a delivery of OrderCreated comes to.
use microservices.Prelude.{
  ℕ, ◌≡◌, ◌≢◌, refl, ap, false, ◌⊎◌, inl, inr, true, some, ◌==◌, ==_iff, Bool-cases, Option-cases,
}
use microservices.Prelude.Rows.{find, any, length}
use microservices.Prelude.Rows.Laws.{any-find, any-none}
use microservices.Grpc.{Platform, Uuid}
use microservices.Effect.{ok, err, failed, Error, Action, query, World}
use microservices.Effect.Laws.{query-cases}
use microservices.Events.{OrderCreatedEvent, Delivery, ack, nack_requeue, nack_drop}
use microservices.Product.{Tables, Server, is_processed, get_processed_event}
use microservices.Product.Consumer.{
  exchange_name, stock_update_failed_event_name, failed_event, validate_stock_update,
  update_stock_batch, handle_order_created_event,
}
use microservices.Product.Consumer.Batch.{Applied, update_stock_batch-cases, ==_false}

-- The transaction that moves the stock of an event.
abbrev pub batch : Platform → Server → OrderCreatedEvent → Action Tables Error ℕ
batch pf server event =
    update_stock_batch pf server event true stock_update_failed_event_name (failed_event event)

-- What a delivery comes to.
pub data Handled (pf : Platform) (server : Server) (order : Uuid) (event : OrderCreatedEvent)
    (w : World Tables) (r : Delivery × World Tables) : Type 0 where
  already :
      any (is_processed order exchange_name) w.tables.processed ≡ true
      → r.0 ≡ ack
      → r.1.tables ≡ w.tables
      → Handled pf server order event w r
  lookup_failed :
      (query (get_processed_event order exchange_name) w).0 ≡ err failed
      → r.0 ≡ nack_requeue
      → r.1.tables ≡ w.tables
      → Handled pf server order event w r
  batch_failed :
      (x : Error)
      → any (is_processed order exchange_name) w.tables.processed ≡ false
      → (batch pf server event (query (get_processed_event order exchange_name) w).1).0 ≡ err x
      → r.0 ≡ nack_requeue
      → r.1.tables ≡ w.tables
      → Handled pf server order event w r
  done :
      (rows : ℕ)
      → any (is_processed order exchange_name) w.tables.processed ≡ false
      → Applied server order event stock_update_failed_event_name
          (failed_event event)
          w.tables
          r.1.tables
          rows
      → ((rows ≡ length event.products) × (r.0 ≡ ack))
        ⊎ ((rows ≢ length event.products) × (r.0 ≡ nack_drop))
      → Handled pf server order event w r

module _ (pf : Platform) (server : Server) where
  validate-Handled :
      (order : Uuid) (event : OrderCreatedEvent) (v : World Tables) (n : ℕ) (w : World Tables)
      → any (is_processed order exchange_name) v.tables.processed ≡ false
      → Applied server order event stock_update_failed_event_name
          (failed_event event)
          v.tables
          w.tables
          n
      → Handled pf server order event v (validate_stock_update event (ok n, w))
  validate-Handled order event v n w first a = elim (Bool-cases (n == length event.products)) [
    | inl b ↦ rw b (done n first a (inl ((==_iff n (length event.products)).0 b, refl)))
    | inr b ↦ rw b (done n first a (inr (==_false n (length event.products) b, refl)))
  ]

  -- A delivery of OrderCreated is acknowledged without effect if the order is recorded as
  -- processed. It is requeued without effect only if that could not be looked up, or if the order
  -- is not recorded and the transaction on the stock failed. Otherwise the order was not recorded,
  -- the transaction is committed, and the delivery is acknowledged where as many rows were updated
  -- as the event has products, and dropped where not, with a report in the outbox that carries its
  -- products. The order id of the event parses.
  pub handle_order_created_event-Handled :
      (event : OrderCreatedEvent) (order : Uuid) (w : World Tables)
      → pf.scan_uuid event.order_id ≡ some order
      → Handled pf server order event w (handle_order_created_event pf server (some event) w)
  unfolding handle_order_created_event get_processed_event
  handle_order_created_event-Handled event order w p =
      elim (query-cases (get_processed_event order exchange_name) w) [
        | inl (fs, e) ↦ rw (p, e) (lookup_failed (ap (λ r. r.0) e) refl refl)
        | inr (fs, e) ↦
            elim (Option-cases (find (is_processed order exchange_name) w.tables.processed)) [
              | inr (row, f) ↦
                  rw (p, e, f)
                    (already (any-find (is_processed order exchange_name) w.tables.processed row f)
                      refl refl)
              | inl f ↦
                  elim (update_stock_batch-cases pf server order event
                    stock_update_failed_event_name (failed_event event)
                    (record { tables = w.tables; faults = fs }) p) [
                      | inl (w', same, (x, c)) ↦
                          rw (p, e, f, c)
                            (batch_failed x (any-none _ w.tables.processed f)
                              (rw e (ap (λ r. r.0) c)) refl same)
                      | inr (w', n, c, a) ↦
                          rw (p, e, f, c)
                            (validate-Handled order event w n w' (any-none _ w.tables.processed f)
                              a)
                    ]
            ]
      ]
