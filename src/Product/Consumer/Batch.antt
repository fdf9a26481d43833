-- ===== src/Product/Consumer/Batch.antt =====
-- What a batch of stock updates that is committed has done.
use microservices.Prelude.{
  ℕ, String, ◌≡◌, ◌≢◌, refl, ap, sym, ◌∙◌, ◌⊎◌, inl, inr, true, false, some, List, [], ◌∷◌, ◌++◌,
  ◌==◌, ==_iff, ==_refl, Bool-cases, Option-cases, arith,
}
use microservices.Prelude.Rows.{length}
use microservices.Grpc.{Platform, Uuid}
use microservices.Effect.{Result, ok, err, Error, invalid, World, query, require, pure, transaction}
use microservices.Effect.Laws.{bind-ok, require-ok, query-ok, transaction-cases}
use microservices.Events.{OrderItem, OrderCreatedEvent, StockUpdateFailedEvent}
use microservices.Product.{
  EventBody, stock_failure, Tables, Server, Line, ProcessedEvent, OutboxEvent, unpublished,
  json_to_recordset, rows_affected, update_rows, is_processed, create_processed_event,
  create_outbox_event, new_processed_event, new_event, update_stock_batch as update_products,
}
use microservices.Product.Consumer.{
  event_name, exchange_name, report_failure, update_stock_batch_tx, update_stock_batch,
}

-- The event that reports a stock failure, as it waits in the outbox.
pub record Reports (order : Uuid) (name : String) (payload : StockUpdateFailedEvent)
    (e : OutboxEvent) : Type 0 where
  pub aggregate : e.aggregate_id ≡ order
  pub named : e.event_name ≡ name
  pub body : e.payload ≡ stock_failure payload
  pub pending : e.status ≡ unpublished

-- What the outbox gets: nothing where every product was updated, otherwise one report.
pub data Reported (order : Uuid) (name : String) (payload : StockUpdateFailedEvent)
    (rows expected : ℕ) (before after : List OutboxEvent) : Type 0 where
  quiet : rows ≡ expected → after ≡ before → Reported order name payload rows expected before after
  reports :
      rows ≢ expected
      → (e : OutboxEvent) → Reports order name payload e
      → after ≡ before ++ e ∷ []
      → Reported order name payload rows expected before after

-- What a batch that is committed has done.
pub record Applied (server : Server) (order : Uuid) (event : OrderCreatedEvent) (name : String)
    (payload : StockUpdateFailedEvent) (t t' : Tables) (rows : ℕ) : Type 0 where
  pub lines : List Line
  pub cast : json_to_recordset server event.products ≡ some lines
  pub affected : rows ≡ rows_affected server lines t.products
  pub products : t'.products ≡ update_rows server t.pg.now lines t.products
  pub processed_event : ProcessedEvent
  pub processed : t'.processed ≡ t.processed ++ processed_event ∷ []
  pub recorded : is_processed order exchange_name processed_event ≡ true
  pub outbox : Reported order name payload rows (length event.products) t.outbox t'.outbox

update_products-ok :
    (server : Server) (items : List OrderItem) (t : Tables) (rows : ℕ) (t' : Tables)
    → update_products server items t ≡ (ok rows, t')
    → (lines : List Line) × (json_to_recordset server items ≡ some lines)
      × (rows ≡ rows_affected server lines t.products)
      × (t' ≡ record t { products = update_rows server t.pg.now lines t.products })
unfolding update_products
update_products-ok server items t rows t' h = elim (Option-cases (json_to_recordset server items)) [
  | inl e ↦ absurd (ground arith)
  | inr (lines, e) ↦ (lines, e, ground arith, ground arith)
]

create_processed_event-ok :
    (order : Uuid) (name : String) (t : Tables) (u : Unit {0}) (t' : Tables)
    → create_processed_event order name t ≡ (ok u, t')
    → (t'.processed ≡ t.processed ++ new_processed_event order name t.pg ∷ [])
      × (t'.products ≡ t.products)
      × (t'.outbox ≡ t.outbox)
unfolding create_processed_event
create_processed_event-ok order name t u t' h = (ground arith, ground arith, ground arith)

new-recorded :
    (order : Uuid) (t : Tables)
    → is_processed order exchange_name (new_processed_event order event_name t.pg) ≡ true
new-recorded order t = rw (==_refl order) refl

create_outbox_event-ok :
    (order : Uuid) (name : String) (payload : EventBody) (t : Tables) (u : Unit {0}) (t' : Tables)
    → create_outbox_event order name payload t ≡ (ok u, t')
    → (t'.products ≡ t.products)
      × (t'.processed ≡ t.processed)
      × (t'.outbox ≡ t.outbox ++ new_event order name payload t.pg ∷ [])
unfolding create_outbox_event
create_outbox_event-ok order name payload t u t' h = (ground arith, ground arith, ground arith)

-- The tables after the report differ from those before in the outbox alone.
record Reporting (order : Uuid) (name : String) (payload : StockUpdateFailedEvent)
    (rows expected : ℕ) (t t' : Tables) : Type 0 where
  pub same_products : t'.products ≡ t.products
  pub same_processed : t'.processed ≡ t.processed
  pub reported : Reported order name payload rows expected t.outbox t'.outbox

pub ==_false : (a b : ℕ) → (a == b) ≡ false → a ≢ b
==_false a b h e = let k = (==_iff a b).1 e in cc

report_failure-Reporting :
    (rows expected : ℕ) (order : Uuid) (name : String) (payload : StockUpdateFailedEvent)
    (w : World Tables) (n : ℕ)
    → (report_failure true rows expected order name payload w).0 ≡ ok n
    → (n ≡ rows)
      × Reporting order name payload rows expected w.tables
          (report_failure true rows expected order name payload w).1.tables
report_failure-Reporting rows expected order name payload w n h =
    elim (Bool-cases (rows == expected)) [
      | inl b ↦
          let r : ◌≡◌ {A = Result Error ℕ} (ok rows) (ok n) = rw b at h in
          (
            cc,
            rw b (record {
              same_products = refl;
              same_processed = refl;
              reported = quiet ((==_iff rows expected).0 b) refl;
            }),
          )
      | inr b ↦
          let a =
            bind-ok (query (create_outbox_event order name (stock_failure payload)))
              (λ u. pure rows) w (rw b at h) in
          let r = a.rest in
          let (p, q, o) =
            create_outbox_event-ok order name (stock_failure payload) w.tables a.value a.mid.tables
              (query-ok _ w a.first) in
          (
            cc,
            rw (b, a.first)
                (record {
                  same_products = p;
                  same_processed = q;
                  reported =
                      reports (==_false rows expected b)
                        (new_event order name (stock_failure payload) w.tables.pg)
                        (record { aggregate = refl; named = refl; body = refl; pending = refl }) o;
                }),
          )
    ]

module _ (pf : Platform) (server : Server) where
  assemble :
      (order : Uuid) (event : OrderCreatedEvent) (name : String) (payload : StockUpdateFailedEvent)
      (t0 t t1 t2 t3 t4 : Tables) (rows n : ℕ)
      → t2 ≡ t1
      → t4 ≡ t3
      → t0 ≡ t
      → update_products server event.products t ≡ (ok rows, t1)
      → (u : Unit {0}) × (create_processed_event order event_name t2 ≡ (ok u, t3))
      → (t' : Tables) → (n ≡ rows) × Reporting order name payload rows (length event.products) t4 t'
      → Applied server order event name payload t0 t' n
  assemble order event name payload t0 t t1 t2 t3 t4 rows n e1 e2 e0 up (u, mark) t' (same, rep) =
      let (lines, cast, affected, after) = update_products-ok server event.products t rows t1 up in
      let (processed, kept_products, kept_outbox) =
        create_processed_event-ok order event_name t2 u t3 mark in
      rw e0 (record {
        lines = lines;
        cast = cast;
        affected = same ∙ affected;
        products =
            rep.same_products
            ∙ ap (λ x. x.products) e2
            ∙ kept_products
            ∙ ap (λ x. x.products) e1
            ∙ ap (λ x. x.products) after;
        processed_event = new_processed_event order event_name t2.pg;
        processed =
            rep.same_processed
            ∙ ap (λ x. x.processed) e2
            ∙ processed
            ∙ ap (λ x. x.processed ++ new_processed_event order event_name t2.pg ∷ []) (e1 ∙ after);
        recorded = new-recorded order t2;
        outbox =
            let o : t4.outbox ≡ t.outbox =
              ap (λ x. x.outbox) e2
              ∙ kept_outbox
              ∙ ap (λ x. x.outbox) e1
              ∙ ap (λ x. x.outbox) after in
            rw (same, sym o) rep.reported;
      })

  assemble_for :
      (order other : Uuid) (event : OrderCreatedEvent) (name : String)
      (payload : StockUpdateFailedEvent) (t0 t t1 t2 t3 t' t4 : Tables) (rows n : ℕ)
      → other ≡ order
      → t0 ≡ t
      → t2 ≡ t1
      → t4 ≡ t'
      → update_products server event.products t ≡ (ok rows, t1)
      → (u : Unit {0}) × (create_processed_event other event_name t2 ≡ (ok u, t3))
      → (n ≡ rows) × Reporting other name payload rows (length event.products) t3 t'
      → Applied server order event name payload t0 t4 n
  assemble_for order other event name payload t0 t t1 t2 t3 t' t4 rows n e e0 e1 e4 up mark rep =
      rw e4 (
        assemble order event name payload t0 t t1 t2 t3 t3 rows n e1 refl e0 up (rw e at mark) t'
          (rw e at rep))

  update_stock_batch_tx-Applied :
      (order : Uuid) (event : OrderCreatedEvent) (name : String) (payload : StockUpdateFailedEvent)
      (w : World Tables) (n : ℕ)
      → pf.scan_uuid event.order_id ≡ some order
      → (update_stock_batch_tx pf server event true name payload w).0 ≡ ok n
      → Applied server order event name payload w.tables
          (update_stock_batch_tx pf server event true name payload w).1.tables
          n
  unfolding update_stock_batch_tx
  update_stock_batch_tx-Applied order event name payload w n p h =
      let a = bind-ok (query (update_products server event.products)) _ w h in
      let b = bind-ok (require (pf.scan_uuid event.order_id) invalid) _ a.mid a.rest in
      let c = bind-ok (query (create_processed_event b.value event_name)) _ b.mid b.rest in
      let (scanned, w1) = require-ok (pf.scan_uuid event.order_id) invalid a.mid b.first in
      assemble_for order b.value event name payload w.tables w.tables a.mid.tables b.mid.tables
        c.mid.tables
        (report_failure true a.value (length event.products) b.value name payload c.mid).1.tables
        (update_stock_batch_tx pf server event true name payload w).1.tables a.value n
        (cc (scanned, p)) refl (ap (λ x. x.tables) (sym w1))
        (ap (λ r. r.1.tables) (a.same ∙ b.same ∙ c.same)) (query-ok _ w a.first)
        (c.value, query-ok _ b.mid c.first)
        (report_failure-Reporting a.value (length event.products) b.value name payload c.mid n
          c.rest)

  pub update_stock_batch-cases :
      (order : Uuid) (event : OrderCreatedEvent) (name : String) (payload : StockUpdateFailedEvent)
      (w : World Tables)
      → pf.scan_uuid event.order_id ≡ some order
      → ((w' : World Tables) × (w'.tables ≡ w.tables)
          × ((e : Error) × (update_stock_batch pf server event true name payload w ≡ (err e, w'))))
        ⊎ ((w' : World Tables) × (n : ℕ) × (update_stock_batch pf server event true name payload w
              ≡ (ok n, w'))
            × Applied server order event name payload w.tables w'.tables n)
  unfolding update_stock_batch
  update_stock_batch-cases order event name payload w p =
      let tx = update_stock_batch_tx pf server event true name payload in
      elim (transaction-cases tx w) [
        | inl (same, (e, h)) ↦
            inl ((transaction tx w).1, same, (e, λ i. (h i, (transaction tx w).1)))
        | inr (fs, n, returned, ran, after) ↦ inr (
          (transaction tx w).1,
          n,
          (λ i. (returned i, (transaction tx w).1)),
          rw after (
              update_stock_batch_tx-Applied order event name payload
                (record { tables = w.tables; faults = fs }) n p ran),
        )
      ]
