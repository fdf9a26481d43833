-- ===== src/Cart/Deliveries.antt =====
-- The cart's side of the saga: an order empties the cart of its user once.
use microservices.Prelude.{
  ◌≡◌, refl, ap, sym, ◌∙◌, inl, inr, Bool, true, false, ◌||◌, not, some, [], ◌∷◌, ◌++◌, ==_refl,
  Option-cases, arith,
}
use microservices.Prelude.Rows.{find, any, delete}
use microservices.Prelude.Rows.Laws.{any-append, any-find, any-none, find-any}
use microservices.Grpc.{Platform, Uuid}
use microservices.Effect.{
  ok, err, Error, query, transaction, failed, invalid, World, require, guard,
}
use microservices.Effect.Laws.{
  guard-ok, bind-ok, require-ok, query-ok_tables, query-cases, transaction-cases,
}
use microservices.Postgres.{drawn_once}
use microservices.Events.{OrderCreatedEvent, Delivery, ack, nack_requeue}
use microservices.Cart.{
  Tables, ProcessedEvent, has_user, cascades, delete_cart_by_user_id, is_processed,
  get_processed_event, create_processed_event, new_processed_event,
}
use microservices.Cart.Consumer.{
  exchange_name, settle_deletion, delete_ignoring, delete_cart_and_create_processed_event_tx,
  delete_cart_and_create_processed_event, handle_order_created_event,
}

-- The tables in which the cart of a user is gone, and an event is recorded.
pub record Emptied (user order : Uuid) (t t' : Tables) : Type 0 where
  pub carts : t'.carts ≡ delete (has_user user) t.carts
  pub products : t'.products ≡ delete (cascades user t.carts) t.products
  pub event : ProcessedEvent
  pub processed : t'.processed ≡ t.processed ++ event ∷ []
  pub recorded : is_processed order exchange_name event ≡ true
  pub first : any (is_processed order exchange_name) t.processed ≡ false

abbrev pub IsProcessed : Uuid → Tables → Type 0
IsProcessed order t = any (is_processed order exchange_name) t.processed ≡ true

-- What a delivery comes to.
pub data Handled (pf : Platform) (event : OrderCreatedEvent) (user order : Uuid) (w : World Tables)
    (r : Delivery × World Tables) : Type 0 where
  already :
      IsProcessed order w.tables
      → r.0 ≡ ack
      → r.1.tables ≡ w.tables
      → Handled pf event user order w r
  lookup_failed :
      (query (get_processed_event order exchange_name) w).0 ≡ err failed
      → r.0 ≡ nack_requeue
      → r.1.tables ≡ w.tables
      → Handled pf event user order w r
  deletion_failed :
      (x : Error)
      → any (is_processed order exchange_name) w.tables.processed ≡ false
      → (delete_cart_and_create_processed_event pf event exchange_name
          (query (get_processed_event order exchange_name) w).1).0
        ≡ err x
      → r.0 ≡ nack_requeue
      → r.1.tables ≡ w.tables
      → Handled pf event user order w r
  emptied : r.0 ≡ ack → Emptied user order w.tables r.1.tables → Handled pf event user order w r

not-false : (b : Bool) → not b ≡ true → b ≡ false
not-false true h = cc
not-false false h = refl

delete_ignoring-false :
    (user : Uuid) (w w' : World Tables) (b : Bool)
    → b ≡ false
    → delete_ignoring user w ≡ (ok b, w')
    → (w'.tables.carts ≡ delete (has_user user) w.tables.carts)
      × (w'.tables.products ≡ delete (cascades user w.tables.carts) w.tables.products)
      × (w'.tables.processed ≡ w.tables.processed)
unfolding delete_cart_by_user_id
delete_ignoring-false user w w' b f h = elim (query-cases (delete_cart_by_user_id user) w) [
  | inl (fs, e) ↦ let k = rw (e, f) at h in let bad = ap (λ r. r.0) k in cc
  | inr (fs, e) ↦
      let k = rw e at h in
      (
        sym (ap (λ r. r.1.tables.carts) k),
        sym (ap (λ r. r.1.tables.products) k),
        sym (ap (λ r. r.1.tables.processed) k),
      )
]

create_processed_event-ok :
    (order : Uuid) (t : Tables) (u : Unit {0})
    → (create_processed_event order exchange_name t).0 ≡ ok u
    → (any (is_processed order exchange_name) t.processed ≡ false)
      × ((create_processed_event order exchange_name t).1 ≡ record t {
        processed = t.processed ++ new_processed_event order exchange_name t.pg ∷ [];
        pg = drawn_once t.pg;
      })
unfolding create_processed_event
create_processed_event-ok order t u h = (ground arith, ground arith)

assemble :
    (user user' order order' : Uuid) (t t1 t2 t' : Tables)
    → user' ≡ user
    → order' ≡ order
    → (t1.carts ≡ delete (has_user user') t.carts)
      × (t1.products ≡ delete (cascades user' t.carts) t.products)
      × (t1.processed ≡ t.processed)
    → t2 ≡ t1
    → (any (is_processed order' exchange_name) t2.processed ≡ false)
      × (t' ≡ record t2 {
        processed = t2.processed ++ new_processed_event order' exchange_name t2.pg ∷ [];
        pg = drawn_once t2.pg;
      })
    → Emptied user order t t'
assemble user user' order order' t t1 t2 t' e f (carts, products, processed) same (first, after) =
    record {
      carts = ap (λ x. x.carts) after ∙ ap (λ x. x.carts) same ∙ rw e at carts;
      products = ap (λ x. x.products) after ∙ ap (λ x. x.products) same ∙ rw e at products;
      event = new_processed_event order exchange_name t2.pg;
      processed =
          ap (λ x. x.processed) after
          ∙ ap (λ x. x.processed ++ new_processed_event order' exchange_name t2.pg ∷ []) same
          ∙ rw (processed, f) refl;
      recorded = rw (==_refl order) refl;
      first = rw (same, processed, f) at first;
    }

module _ (pf : Platform) where
  tx-Emptied :
      (event : OrderCreatedEvent) (user order : Uuid) (w : World Tables) (u : Unit {0})
      → pf.scan_uuid event.user_id ≡ some user
      → pf.scan_uuid event.order_id ≡ some order
      → (delete_cart_and_create_processed_event_tx pf event exchange_name w).0 ≡ ok u
      → Emptied user order w.tables
          (delete_cart_and_create_processed_event_tx pf event exchange_name w).1.tables
  unfolding delete_cart_and_create_processed_event_tx
  tx-Emptied event user order w u p q h =
      let a = bind-ok (require (pf.scan_uuid event.user_id) invalid) _ w h in
      let b = bind-ok (delete_ignoring a.value) _ a.mid a.rest in
      let c = bind-ok (require (pf.scan_uuid event.order_id) invalid) _ b.mid b.rest in
      let d = bind-ok (guard (not b.value) failed) _ c.mid c.rest in
      let (user', w1) = require-ok (pf.scan_uuid event.user_id) invalid w a.first in
      let (order', w2) = require-ok (pf.scan_uuid event.order_id) invalid b.mid c.first in
      let (running, w3) = guard-ok (not b.value) failed c.mid d.mid d.value d.first in
      let (made, stored) =
        query-ok_tables (create_processed_event c.value exchange_name) d.mid d.rest in
      let (first, after) = create_processed_event-ok c.value d.mid.tables u made in
      assemble_from event user a.value order c.value w.tables a.mid.tables b.mid.tables d.mid.tables
        (delete_cart_and_create_processed_event_tx pf event exchange_name w).1.tables
        (cc (user', p)) (cc (order', q)) (ap (λ x. x.tables) w1)
        (delete_ignoring-false a.value a.mid b.mid b.value (not-false b.value running) b.first)
        (ap (λ x. x.tables) (sym (w2 ∙ w3)))
        (first, ap (λ r. r.1.tables) (a.same ∙ b.same ∙ c.same ∙ d.same) ∙ stored ∙ after)
    where
      assemble_from :
          (event : OrderCreatedEvent) (user user' order order' : Uuid) (t0 t t1 t2 t' : Tables)
          → user' ≡ user
          → order' ≡ order
          → t0 ≡ t
          → (t1.carts ≡ delete (has_user user') t.carts)
            × (t1.products ≡ delete (cascades user' t.carts) t.products)
            × (t1.processed ≡ t.processed)
          → t2 ≡ t1
          → (any (is_processed order' exchange_name) t2.processed ≡ false)
            × (t' ≡ record t2 {
              processed = t2.processed ++ new_processed_event order' exchange_name t2.pg ∷ [];
              pg = drawn_once t2.pg;
            })
          → Emptied user order t0 t'
      assemble_from event user user' order order' t0 t t1 t2 t' e f e0 dels same rest =
          rw e0 (assemble user user' order order' t t1 t2 t' e f dels same rest)

  transaction-Handled :
      (event : OrderCreatedEvent) (user order : Uuid) (w v : World Tables)
      → w.tables ≡ v.tables
      → any (is_processed order exchange_name) v.tables.processed ≡ false
      → w ≡ (query (get_processed_event order exchange_name) v).1
      → pf.scan_uuid event.user_id ≡ some user
      → pf.scan_uuid event.order_id ≡ some order
      → Handled pf event user order v
          (settle_deletion pf (delete_cart_and_create_processed_event pf event exchange_name w))
  unfolding delete_cart_and_create_processed_event
  transaction-Handled event user order w v e first looked p q =
      let tx = delete_cart_and_create_processed_event_tx pf event exchange_name in
      elim (transaction-cases tx w) [
        | inl (same, (x, h)) ↦ rw h (
            deletion_failed x first (ap (λ u. (transaction tx u).0) (sym looked) ∙ h) refl
              (same ∙ e))
        | inr (fs, u, h, ran, after) ↦
            let start : World Tables = record { tables = w.tables; faults = fs } in
            rw h (emptied refl (rw (sym e, after) (tx-Emptied event user order start u p q ran)))
      ]

  -- A delivery of OrderCreated is acknowledged without effect if the order is recorded as
  -- processed. It is requeued without effect only if that could not be looked up, or if the order
  -- is not recorded and the transaction that deletes the cart failed. Otherwise the order was not
  -- recorded, the delivery is acknowledged, the user's cart and its rows are gone, and the order is
  -- recorded. The ids of the user and of the order parse.
  pub cart_delivery-Handled :
      (event : OrderCreatedEvent) (user order : Uuid) (w : World Tables)
      → pf.scan_uuid event.user_id ≡ some user
      → pf.scan_uuid event.order_id ≡ some order
      → Handled pf event user order w (handle_order_created_event pf (some event) w)
  unfolding handle_order_created_event get_processed_event
  cart_delivery-Handled event user order w p q =
      elim (query-cases (get_processed_event order exchange_name) w) [
        | inl (fs, e) ↦ rw (q, e) (lookup_failed (ap (λ r. r.0) e) refl refl)
        | inr (fs, e) ↦
            elim (Option-cases (find (is_processed order exchange_name) w.tables.processed)) [
              | inr (row, f) ↦
                  rw (q, e, f)
                    (already (any-find (is_processed order exchange_name) w.tables.processed row f)
                      refl refl)
              | inl f ↦
                  rw (q, e, f)
                    (transaction-Handled event user order
                      (record { tables = w.tables; faults = fs }) w refl
                      (any-none _ w.tables.processed f) (sym (ap (λ r. r.1) e)) p q)
            ]
      ]

  Handled-IsProcessed :
      (event : OrderCreatedEvent) (user order : Uuid) (w : World Tables)
      (r : Delivery × World Tables)
      → r.0 ≡ ack
      → Handled pf event user order w r
      → IsProcessed order r.1.tables
  Handled-IsProcessed event user order w r a (already p k same) = rw same p
  Handled-IsProcessed event user order w r a (lookup_failed l k same) = cc (a, k)
  Handled-IsProcessed event user order w r a (deletion_failed x l u k same) = cc (a, k)
  Handled-IsProcessed event user order w r a (emptied k x) =
      rw
        (
          x.processed,
          any-append (is_processed order exchange_name) w.tables.processed (x.event ∷ []),
          x.recorded,
        )
        (or-true (any (is_processed order exchange_name) w.tables.processed))
    where
      or-true : (b : Bool) → (b || (true || false)) ≡ true
      or-true true = refl
      or-true false = refl

  processed_before :
      (event : OrderCreatedEvent) (order : Uuid) (w : World Tables)
      → pf.scan_uuid event.order_id ≡ some order
      → IsProcessed order w.tables
      → (handle_order_created_event pf (some event) w).1.tables ≡ w.tables
  unfolding handle_order_created_event get_processed_event
  processed_before event order w p h =
      elim (query-cases (get_processed_event order exchange_name) w) [
        | inl (fs, e) ↦ rw (p, e) refl
        | inr (fs, e) ↦
            elim (Option-cases (find (is_processed order exchange_name) w.tables.processed)) [
              | inr (row, f) ↦ rw (p, e, f) refl
              | inl f ↦ absurd (find-any (is_processed order exchange_name) w.tables.processed f h)
            ]
      ]

  -- A cart that is filled after its user's order was acknowledged survives every redelivery of the
  -- order: while the processed events are those after that delivery, no table changes. The ids of
  -- the user and of the order parse.
  pub cart_delivery_again :
      (event event' : OrderCreatedEvent) (user order : Uuid) (w w' : World Tables)
      → pf.scan_uuid event.user_id ≡ some user
      → pf.scan_uuid event.order_id ≡ some order
      → pf.scan_uuid event'.order_id ≡ some order
      → (handle_order_created_event pf (some event) w).0 ≡ ack
      → w'.tables.processed ≡ (handle_order_created_event pf (some event) w).1.tables.processed
      → (handle_order_created_event pf (some event') w').1.tables ≡ w'.tables
  cart_delivery_again event event' user order w w' p q q' a same =
      let h =
        Handled-IsProcessed event user order w (handle_order_created_event pf (some event) w) a
          (cart_delivery-Handled event user order w p q) in
      processed_before event' order w' q' (rw same h)
