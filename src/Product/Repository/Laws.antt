-- ===== src/Product/Repository/Laws.antt =====
-- A product and its event change together, or not at all.
use microservices.Prelude.{
  ◌≡◌, refl, ap, sym, ◌∙◌, ◌⊎◌, inl, inr, String, Option, none, some, List, [], ◌∷◌, ◌++◌, arith,
  Option-cases, Bool-cases, false, Bool,
}
use microservices.Prelude.Rows.{find, any, update, delete}
use microservices.Grpc.{Platform, Uuid}
use microservices.Effect.{Result, ok, err, Error, failed, World, query, require, one_row}
use microservices.Effect.Laws.{bind-ok, require-ok, query-ok, transaction-cases}
use microservices.Events.{
  ProductEvent, product_event_name, product_created_routing_key, product_updated_routing_key,
  product_deleted_routing_key,
}
use microservices.Postgres.{uuid_generate_v4}
use microservices.Product.{
  Product, Tables, OutboxEvent, unpublished, product_event, new_event, create_outbox_event,
  EventBody,
}
use microservices.Product.Queries.{
  ProductParams, Columns, create_product as insert_product, update_product as change_product,
  delete_product as remove_product, has_id, checked, new_product, with_params,
}
use microservices.Product.Repository.{
  Formats, product_to_payload, add_outbox_event, announce, create_product_tx, create_product,
  update_product_tx, update_product, delete_product_tx, delete_product, deleted_payload,
}

-- The event of a product, as it waits in the outbox.
pub record Announces (id : Uuid) (key : String) (payload : ProductEvent)
    (before after : List OutboxEvent) : Type 0 where
  pub event : OutboxEvent
  pub added : after ≡ before ++ event ∷ []
  pub aggregate : event.aggregate_id ≡ id
  pub named : event.event_name ≡ product_event_name key
  pub body : event.payload ≡ product_event payload
  pub pending : event.status ≡ unpublished

create_outbox_event-ok :
    (id : Uuid) (name : String) (payload : EventBody) (t : Tables) (u : Unit {0}) (t' : Tables)
    → create_outbox_event id name payload t ≡ (ok u, t')
    → (t'.products ≡ t.products) × (t'.outbox ≡ t.outbox ++ new_event id name payload t.pg ∷ [])
unfolding create_outbox_event
create_outbox_event-ok id name payload t u t' h = (ground arith, ground arith)

-- The tables of products after the statements of the three changes.
pub record Created (params : ProductParams) (t : Tables) (p : Product) (after : List Product)
    : Type 0 where
  pub columns : Columns
  pub accepted : checked params t ≡ some columns
  pub row : p ≡ new_product params columns t.pg
  pub new_id : any (has_id p.id) t.products ≡ false
  pub added : after ≡ t.products ++ p ∷ []

pub record Updated (id : Uuid) (params : ProductParams) (t : Tables) (p : Product)
    (after : List Product) : Type 0 where
  pub columns : Columns
  pub accepted : checked params t ≡ some columns
  pub changed : after ≡ update (has_id id) (with_params params columns t.pg.now) t.products
  pub found : find (has_id id) after ≡ some p

insert_product-ok :
    (params : ProductParams) (t : Tables) (p : Product) (t' : Tables)
    → insert_product params t ≡ (ok p, t')
    → Created params t p t'.products × (t'.outbox ≡ t.outbox)
unfolding insert_product
insert_product-ok params t p t' h = elim (Option-cases (checked params t)) [
  | inl e ↦ let bad = ap (λ r. r.0) (rw e at h) in cc
  | inr (columns, e) ↦ elim (Bool-cases (any (has_id (uuid_generate_v4 t.pg)) t.products)) [
    | inl b ↦ let bad = ap (λ r. r.0) (rw (e, b) at h) in cc
    | inr b ↦
        let k = rw (e, b) at h in
        let made : p ≡ new_product params columns t.pg =
          same_row (new_product params columns t.pg) p (ap (λ r. r.0) k) in
        (
          record {
            columns = columns;
            accepted = e;
            row = made;
            new_id = rw made b;
            added = rw made (sym (ap (λ r. r.1.products) k));
          },
          sym (ap (λ r. r.1.outbox) k),
        )
  ]
]
  where
    same_row : (x y : Product) → ◌≡◌ {A = Result Error Product} (ok x) (ok y) → y ≡ x
    same_row x y h = cc

one_row-ok : (o : Option Product) (p : Product) → one_row o ≡ ok p → o ≡ some p
one_row-ok none p h = cc
one_row-ok (some q) p h = ground arith

change_product-ok :
    (id : Uuid) (params : ProductParams) (t : Tables) (p : Product) (t' : Tables)
    → change_product id params t ≡ (ok p, t')
    → Updated id params t p t'.products × (t'.outbox ≡ t.outbox)
unfolding change_product
change_product-ok id params t p t' h = elim (Bool-cases (any (has_id id) t.products)) [
  | inr b ↦ let bad = ap (λ r. r.0) (rw b at h) in cc
  | inl b ↦ elim (Option-cases (checked params t)) [
    | inl e ↦ let bad = ap (λ r. r.0) (rw (b, e) at h) in cc
    | inr (columns, e) ↦
        let k = rw (b, e) at h in
        let after : t'.products
            ≡ update (has_id id) (with_params params columns t.pg.now) t.products =
          sym (ap (λ r. r.1.products) k) in
        (
          record {
            columns = columns;
            accepted = e;
            changed = after;
            found = ap (find (has_id id)) after ∙ one_row-ok _ p (ap (λ r. r.0) k);
          },
          sym (ap (λ r. r.1.outbox) k),
        )
  ]
]

module _ (pf : Platform) (formats : Formats) where
  add_outbox_event-Announces :
      (id : Uuid) (key : String) (payload : ProductEvent) (w w' : World Tables) (u : Unit {0})
      → add_outbox_event pf formats id key payload w ≡ (ok u, w')
      → Announces id key payload w.tables.outbox w'.tables.outbox
        × (w'.tables.products ≡ w.tables.products)
  unfolding add_outbox_event
  add_outbox_event-Announces id key payload w w' u h =
      let body = product_event payload in
      let (products, outbox) =
        create_outbox_event-ok id (product_event_name key) body w.tables u w'.tables
          (query-ok _ w h) in
      (
        record {
          event = new_event id (product_event_name key) body w.tables.pg;
          added = outbox;
          aggregate = refl;
          named = refl;
          body = refl;
          pending = refl;
        },
        products,
      )

  announce-Announces :
      (key : String) (p p' : Product) (w : World Tables)
      → (announce pf formats key p w).0 ≡ ok p'
      → (payload : ProductEvent) × (p' ≡ p)
        × (product_to_payload pf formats p ≡ some payload)
        × Announces p.id key payload w.tables.outbox (announce pf formats key p w).1.tables.outbox
        × ((announce pf formats key p w).1.tables.products ≡ w.tables.products)
  unfolding announce
  announce-Announces key p p' w h =
      let a = bind-ok (require (product_to_payload pf formats p) failed) _ w h in
      let b = bind-ok (add_outbox_event pf formats p.id key a.value) _ a.mid a.rest in
      let (payload, w1) = require-ok (product_to_payload pf formats p) failed w a.first in
      let (announces, products) =
        add_outbox_event-Announces p.id key a.value a.mid b.mid b.value b.first in
      (
        a.value,
        returned p p' b.rest,
        payload,
        rw (ap (λ r. r.1.tables.outbox) (a.same ∙ b.same), w1) announces,
        ap (λ r. r.1.tables.products) (a.same ∙ b.same)
            ∙ products
            ∙ ap (λ x. x.tables.products) (sym w1),
      )
    where
      returned : (x y : Product) → ◌≡◌ {A = Result Error Product} (ok x) (ok y) → y ≡ x
      returned x y h = cc

  -- What the three changes have done when they succeed.
  abbrev pub CreatedWith : ProductParams → Tables → Product → Tables → Type 0
  CreatedWith params t p t' =
      (payload : ProductEvent) × (product_to_payload pf formats p ≡ some payload)
      × Created params t p t'.products
      × Announces p.id product_created_routing_key payload t.outbox t'.outbox

  abbrev pub UpdatedWith : Uuid → ProductParams → Tables → Product → Tables → Type 0
  UpdatedWith id params t p t' =
      (payload : ProductEvent) × (product_to_payload pf formats p ≡ some payload)
      × Updated id params t p t'.products
      × Announces p.id product_updated_routing_key payload t.outbox t'.outbox

  abbrev pub DeletedWith : Uuid → Tables → Tables → Type 0
  DeletedWith id t t' =
      (t'.products ≡ delete (has_id id) t.products)
      × Announces id product_deleted_routing_key (deleted_payload pf formats id) t.outbox t'.outbox

  create_product_tx-ok :
      (params : ProductParams) (w : World Tables) (p : Product)
      → (create_product_tx pf formats params w).0 ≡ ok p
      → CreatedWith params w.tables p (create_product_tx pf formats params w).1.tables
  unfolding create_product_tx
  create_product_tx-ok params w p h =
      let a = bind-ok (query (insert_product params)) _ w h in
      let (created, outbox) =
        insert_product-ok params w.tables a.value a.mid.tables (query-ok _ w a.first) in
      let (payload, same, body, announces, products) =
        announce-Announces product_created_routing_key a.value p a.mid a.rest in
      rw (a.same, same) (payload, body, rw products created, rw outbox at announces)

  update_product_tx-ok :
      (id : Uuid) (params : ProductParams) (w : World Tables) (p : Product)
      → (update_product_tx pf formats id params w).0 ≡ ok p
      → UpdatedWith id params w.tables p (update_product_tx pf formats id params w).1.tables
  unfolding update_product_tx
  update_product_tx-ok id params w p h =
      let a = bind-ok (query (change_product id params)) _ w h in
      let (updated, outbox) =
        change_product-ok id params w.tables a.value a.mid.tables (query-ok _ w a.first) in
      let (payload, same, body, announces, products) =
        announce-Announces product_updated_routing_key a.value p a.mid a.rest in
      rw (a.same, same) (payload, body, rw products updated, rw outbox at announces)

  delete_product_tx-ok :
      (id : Uuid) (w : World Tables) (u : Unit {0})
      → (delete_product_tx pf formats id w).0 ≡ ok u
      → DeletedWith id w.tables (delete_product_tx pf formats id w).1.tables
  unfolding delete_product_tx remove_product
  delete_product_tx-ok id w u h =
      let a = bind-ok (query (remove_product id)) _ w h in
      let gone = query-ok (remove_product id) w a.first in
      let last =
        add_outbox_event pf formats id product_deleted_routing_key (deleted_payload pf formats id)
          a.mid in
      let (announces, products) =
        add_outbox_event-Announces id product_deleted_routing_key (deleted_payload pf formats id)
          a.mid last.1 u (λ i. (a.rest i, last.1)) in
      rw a.same (
        products ∙ ap (λ r. r.1.products) (sym gone),
        rw (ap (λ r. r.1.outbox) (sym gone)) at announces,
      )

  -- Creating, updating and deleting a product are atomic with their events: a success has added the
  -- row of the product, updated the rows with its id, or removed the rows with its id, of which
  -- there may be none, and has added exactly one unpublished event, with the routing key of the
  -- change and, for a row that is there, its values; a failure has changed no table.
  pub product_changes_atomic :
      (id : Uuid) (params : ProductParams) (w : World Tables)
      → (((p : Product) × ((create_product pf formats params w).0 ≡ ok p)
            × CreatedWith params w.tables p (create_product pf formats params w).1.tables)
          ⊎ ((e : Error) × ((create_product pf formats params w).0 ≡ err e)
              × ((create_product pf formats params w).1.tables ≡ w.tables)))
        × (((p : Product) × ((update_product pf formats id params w).0 ≡ ok p)
              × UpdatedWith id params w.tables p (update_product pf formats id params w).1.tables)
            ⊎ ((e : Error) × ((update_product pf formats id params w).0 ≡ err e)
                × ((update_product pf formats id params w).1.tables ≡ w.tables)))
        × ((((delete_product pf formats id w).0 ≡ ok tt)
              × DeletedWith id w.tables (delete_product pf formats id w).1.tables)
            ⊎ ((e : Error) × ((delete_product pf formats id w).0 ≡ err e)
                × ((delete_product pf formats id w).1.tables ≡ w.tables)))
  unfolding create_product update_product delete_product
  product_changes_atomic id params w =
      let start : List Bool → World Tables = λ fs. record { tables = w.tables; faults = fs } in
      (
        elim (transaction-cases (create_product_tx pf formats params) w) [
          | inl (same, (e, h)) ↦ inr (e, h, same)
          | inr (fs, p, h, ran, after) ↦
              inl (p, h, rw after (create_product_tx-ok params (start fs) p ran))
        ],
        elim (transaction-cases (update_product_tx pf formats id params) w) [
          | inl (same, (e, h)) ↦ inr (e, h, same)
          | inr (fs, p, h, ran, after) ↦
              inl (p, h, rw after (update_product_tx-ok id params (start fs) p ran))
        ],
        elim (transaction-cases (delete_product_tx pf formats id) w) [
          | inl (same, (e, h)) ↦ inr (e, h, same)
          | inr (fs, u, h, ran, after) ↦
              inl (h, rw after (delete_product_tx-ok id (start fs) u ran))
        ],
      )
