-- ===== src/Product/Consumer/Stocktaking.antt =====
-- What deliveries do to the stock, whatever is redelivered.
use microservices.Prelude.{
  ℕ, ◌≡◌, ◌≢◌, refl, ap, ◌⊎◌, inl, inr, Bool, true, false, some, ◌∷◌, [], ◌++◌, Option-cases, ◌||◌,
}
use microservices.Prelude.Rows.{any, find}
use microservices.Prelude.Rows.Laws.{any-append, find-any}
use microservices.Grpc.{Platform, Uuid}
use microservices.Effect.{World}
use microservices.Effect.Laws.{query-cases}
use microservices.Events.{OrderCreatedEvent, Delivery, nack_requeue, nack_drop}
use microservices.Product.{Tables, Server, OutboxEvent, is_processed, get_processed_event}
use microservices.Product.Stock.{Taken, kept, Rowwise, Rowwise-refl, update_rows-Taken}
use microservices.Product.Consumer.{
  exchange_name, stock_update_failed_event_name, failed_event, handle_order_created_event,
}
use microservices.Product.Consumer.Batch.{Applied, quiet, reports, Reports}
use microservices.Product.Consumer.Laws.{
  Handled, already, lookup_failed, batch_failed, done, handle_order_created_event-Handled,
}

-- The order is recorded as processed.
abbrev pub IsProcessed : Uuid → Tables → Type 0
IsProcessed order t = any (is_processed order exchange_name) t.processed ≡ true

Applied-IsProcessed :
    {server : Server} {order : Uuid} {event : OrderCreatedEvent} {t t' : Tables}
    (a : (rows : ℕ) × Applied server order event stock_update_failed_event_name
        (failed_event event)
        t
        t'
        rows)
    → IsProcessed order t'
Applied-IsProcessed {server} {order} {event} {t} {t'} (rows, a) =
    rw
      (
        a.processed,
        any-append (is_processed order exchange_name) t.processed (a.processed_event ∷ []),
        a.recorded,
      )
      (or-true (any (is_processed order exchange_name) t.processed))
  where
    or-true : (b : Bool) → (b || (true || false)) ≡ true
    or-true true = refl
    or-true false = refl

Handled-IsProcessed :
    (pf : Platform) (server : Server) (order : Uuid) (event : OrderCreatedEvent) (w : World Tables)
    (r : Delivery × World Tables)
    → r.0 ≢ nack_requeue
    → Handled pf server order event w r
    → IsProcessed order r.1.tables
Handled-IsProcessed pf server order event w r n (already p a same) = rw same p
Handled-IsProcessed pf server order event w r n (lookup_failed l a same) = absurd (n a)
Handled-IsProcessed pf server order event w r n (batch_failed x l k a same) = absurd (n a)
Handled-IsProcessed pf server order event w r n (done rows f a o) = Applied-IsProcessed (rows, a)

Handled-Taken :
    (pf : Platform) (server : Server) (order : Uuid) (event : OrderCreatedEvent) (w : World Tables)
    (r : Delivery × World Tables)
    → Handled pf server order event w r
    → Rowwise (Taken server event.products) w.tables.products r.1.tables.products
Handled-Taken pf server order event w r (already p a same) =
    rw same (Rowwise-refl (Taken server event.products) (λ p. kept refl) w.tables.products)
Handled-Taken pf server order event w r (lookup_failed l a same) =
    rw same (Rowwise-refl (Taken server event.products) (λ p. kept refl) w.tables.products)
Handled-Taken pf server order event w r (batch_failed x l k a same) =
    rw same (Rowwise-refl (Taken server event.products) (λ p. kept refl) w.tables.products)
Handled-Taken pf server order event w r (done rows f a o) =
    rw a.products
      (update_rows-Taken server event.products a.lines a.cast w.tables.pg.now w.tables.products)

-- The deliveries that leave the outbox alone, and those that report a failure.
Handled-outbox :
    (pf : Platform) (server : Server) (order : Uuid) (event : OrderCreatedEvent) (w : World Tables)
    (r : Delivery × World Tables)
    → Handled pf server order event w r
    → ((r.0 ≢ nack_drop) × (r.1.tables.outbox ≡ w.tables.outbox))
      ⊎ ((r.0 ≡ nack_drop)
          × ((e : OutboxEvent) × Reports order stock_update_failed_event_name (failed_event event) e
              × (r.1.tables.outbox ≡ w.tables.outbox ++ e ∷ [])))
Handled-outbox pf server order event w r (already p a same) =
    inl ((λ b. cc (a, b)), ap (λ x. x.outbox) same)
Handled-outbox pf server order event w r (lookup_failed l a same) =
    inl ((λ b. cc (a, b)), ap (λ x. x.outbox) same)
Handled-outbox pf server order event w r (batch_failed x l k a same) =
    inl ((λ b. cc (a, b)), ap (λ x. x.outbox) same)
Handled-outbox pf server order event w r (done rows f a (inl (n, k))) = elim a.outbox [
  | quiet e same ↦ inl ((λ b. cc (k, b)), same)
  | reports e x rep same ↦ absurd (e n)
]
Handled-outbox pf server order event w r (done rows f a (inr (n, k))) = elim a.outbox [
  | quiet e same ↦ absurd (n e)
  | reports e x rep same ↦ inr (k, (x, rep, same))
]

module _ (pf : Platform) (server : Server) where
  -- Every product row stays as it was, or has lost the signed quantity of an item of the event that
  -- names it, without going below 0; no delivery moves stock in another way. The order id of the
  -- event parses.
  pub handle_order_created_event-Taken :
      (event : OrderCreatedEvent) (order : Uuid) (w : World Tables)
      → pf.scan_uuid event.order_id ≡ some order
      → Rowwise
          (Taken server event.products)
          w.tables.products
          (handle_order_created_event pf server (some event) w).1.tables.products
  handle_order_created_event-Taken event order w p =
      Handled-Taken pf server order event w (handle_order_created_event pf server (some event) w)
        (handle_order_created_event-Handled pf server event order w p)

  -- A delivery is dropped exactly when it has put one report of the failure, with the order and its
  -- products, into the outbox; every other delivery leaves the outbox as it was. The order id of
  -- the event parses.
  pub handle_order_created_event-report :
      (event : OrderCreatedEvent) (order : Uuid) (w : World Tables)
      → pf.scan_uuid event.order_id ≡ some order
      → (((handle_order_created_event pf server (some event) w).0 ≢ nack_drop)
          × ((handle_order_created_event pf server (some event) w).1.tables.outbox
              ≡ w.tables.outbox))
        ⊎ (((handle_order_created_event pf server (some event) w).0 ≡ nack_drop)
            × ((e : OutboxEvent) × Reports order stock_update_failed_event_name
                  (failed_event event)
                  e
                × ((handle_order_created_event pf server (some event) w).1.tables.outbox
                    ≡ w.tables.outbox ++ e ∷ [])))
  handle_order_created_event-report event order w p =
      Handled-outbox pf server order event w (handle_order_created_event pf server (some event) w)
        (handle_order_created_event-Handled pf server event order w p)

  processed_before :
      (event : OrderCreatedEvent) (order : Uuid) (w : World Tables)
      → pf.scan_uuid event.order_id ≡ some order
      → IsProcessed order w.tables
      → (handle_order_created_event pf server (some event) w).1.tables ≡ w.tables
  unfolding handle_order_created_event get_processed_event
  processed_before event order w p h =
      elim (query-cases (get_processed_event order exchange_name) w) [
        | inl (fs, e) ↦ rw (p, e) refl
        | inr (fs, e) ↦
            elim (Option-cases (find (is_processed order exchange_name) w.tables.processed)) [
              | inr (row, f) ↦ rw (p, e, f) refl
              | inl f ↦ absurd (find-any (is_processed order exchange_name) w.tables.processed f h)
            ]
      ]

  -- Stock is taken once: after a delivery that was acknowledged or dropped, a delivery for the same
  -- order, whose id parses, changes no table if none has changed in between, whatever fails
  -- meanwhile.
  pub handle_order_created_event_again :
      (event event' : OrderCreatedEvent) (order : Uuid) (w w' : World Tables)
      → pf.scan_uuid event.order_id ≡ some order
      → pf.scan_uuid event'.order_id ≡ some order
      → (handle_order_created_event pf server (some event) w).0 ≢ nack_requeue
      → w'.tables ≡ (handle_order_created_event pf server (some event) w).1.tables
      → (handle_order_created_event pf server (some event') w').1.tables ≡ w'.tables
  handle_order_created_event_again event event' order w w' p q n same =
      let h =
        Handled-IsProcessed pf server order event w
          (handle_order_created_event pf server (some event) w) n
          (handle_order_created_event-Handled pf server event order w p) in
      processed_before event' order w' q (rw same h)
