-- ===== src/Search/History.antt =====
-- search-service/internal/events/consumers/product/consumer.go with
-- product-service/internal/repository/postgres/product_repository.go: changes of products, each
-- followed by the deliveries of the event that it announced.
use microservices.Prelude.{◌≡◌, ap, sym, ◌∙◌, ◌⊎◌, inl, inr, String, some, List, [], ◌∷◌, ◌++◌}
use microservices.Grpc.{Platform, Uuid}
use microservices.Effect.{ok, err, World}
use microservices.Events.{
  ProductEvent, Delivery, ack, nack_requeue, product_created_routing_key,
  product_updated_routing_key, product_deleted_routing_key,
}
use microservices.Product.{Product, Tables, OutboxEvent, product_event}
use microservices.Product.Queries.{ProductParams}
use microservices.Product.Repository.{
  Formats, deleted_payload, create_product, update_product, delete_product as remove_product,
}
use microservices.Product.Repository.Laws.{Announces, product_changes_atomic}
use microservices.Search.{Index, handle_product_created_event}
use microservices.Search.Documents.{IsIndexOf}
use microservices.Search.Refinement.{Follows, handled-Follows}

same_last : {A : Type 0} (xs : List A) (x y : A) → xs ++ x ∷ [] ≡ xs ++ y ∷ [] → x ≡ y
same_last [] x y h = cc
same_last (z ∷ xs) x y h = same_last xs x y cc

Announces-payload :
    (id id' : Uuid) (key : String) (a b : ProductEvent) (before after : List OutboxEvent)
    → Announces id key a before after
    → Announces id' key b before after
    → a ≡ b
Announces-payload id id' key a b before after x y =
    let e : x.event ≡ y.event = same_last before x.event y.event (sym x.added ∙ y.added) in
    let k : product_event a ≡ product_event b = sym x.body ∙ ap (λ o. o.payload) e ∙ y.body in cc

-- The deliveries of one event, requeued until one is acknowledged.
pub data Delivered (key : String) (event : ProductEvent) : World Index → World Index → Type 0 where
  accepted :
      {w : World Index}
      → (handle_product_created_event key (some event) w).0 ≡ ack
      → Delivered key event w (handle_product_created_event key (some event) w).1
  again :
      {w w' : World Index}
      → (handle_product_created_event key (some event) w).0 ≡ nack_requeue
      → Delivered key event (handle_product_created_event key (some event) w).1 w'
      → Delivered key event w w'

module _ (pf : Platform) (formats : Formats) where
  module _ (reads_back : (u : Uuid) → pf.scan_uuid (pf.uuid_string u) ≡ some u) where
    ap_Follows :
        (ix : Index) (ps' : List Product) (key : String) (a b : ProductEvent) (v : World Index)
        → a ≡ b
        → Follows pf formats reads_back ix ps' (handle_product_created_event key (some a) v)
        → Follows pf formats reads_back ix ps' (handle_product_created_event key (some b) v)
    ap_Follows ix ps' key a b v e h = rw e at h

    -- Changes that succeeded, one after another, and the deliveries of the event of each.
    pub data History : Tables → World Index → Tables → World Index → Type 0 where
      started : {t : Tables} {w : World Index} → History t w t w
      created :
          {t : Tables} {w v v' : World Index} (pw : World Tables) (params : ProductParams)
          (p : Product) (event : ProductEvent)
          → History t w pw.tables v
          → (create_product pf formats params pw).0 ≡ ok p
          → Announces p.id product_created_routing_key event pw.tables.outbox
              (create_product pf formats params pw).1.tables.outbox
          → Delivered product_created_routing_key event v v'
          → History t w (create_product pf formats params pw).1.tables v'
      updated :
          {t : Tables} {w v v' : World Index} (pw : World Tables) (id : Uuid)
          (params : ProductParams) (p : Product) (event : ProductEvent)
          → History t w pw.tables v
          → (update_product pf formats id params pw).0 ≡ ok p
          → Announces p.id product_updated_routing_key event pw.tables.outbox
              (update_product pf formats id params pw).1.tables.outbox
          → Delivered product_updated_routing_key event v v'
          → History t w (update_product pf formats id params pw).1.tables v'
      deleted :
          {t : Tables} {w v v' : World Index} (pw : World Tables) (id : Uuid)
          (params : ProductParams) (event : ProductEvent)
          → History t w pw.tables v
          → (remove_product pf formats id pw).0 ≡ ok tt
          → Announces id product_deleted_routing_key event pw.tables.outbox
              (remove_product pf formats id pw).1.tables.outbox
          → Delivered product_deleted_routing_key event v v'
          → History t w (remove_product pf formats id pw).1.tables v'

    acked_not_requeued :
        (d : Delivery) (ix after : Index) (ps ps' : List Product)
        → d ≡ ack
        → ((d ≡ ack) × IsIndexOf pf formats after ps') ⊎ ((d ≡ nack_requeue) × (after ≡ ix))
        → IsIndexOf pf formats after ps'
    acked_not_requeued d ix after ps ps' a (inl (b, h)) = h
    acked_not_requeued d ix after ps ps' a (inr (b, h)) =
        let e : ack ≡ nack_requeue = sym a ∙ b in cc

    requeued_not_acked :
        (d : Delivery) (ix after : Index) (ps' : List Product)
        → d ≡ nack_requeue
        → ((d ≡ ack) × IsIndexOf pf formats after ps') ⊎ ((d ≡ nack_requeue) × (after ≡ ix))
        → after ≡ ix
    requeued_not_acked d ix after ps' a (inl (b, h)) = let e : ack ≡ nack_requeue = sym b ∙ a in cc
    requeued_not_acked d ix after ps' a (inr (b, h)) = h

    Delivered-IsIndexOf :
        (key : String) (event : ProductEvent) (w w' : World Index) (ps ps' : List Product)
        → IsIndexOf pf formats w.tables ps
        → ((v : World Index)
            → IsIndexOf pf formats v.tables ps
            → Follows pf formats reads_back v.tables ps'
                (handle_product_created_event key (some event) v))
        → Delivered key event w w'
        → IsIndexOf pf formats w'.tables ps'
    Delivered-IsIndexOf key event w w' ps ps' h follows (accepted a) =
        acked_not_requeued _ w.tables _ ps ps' a (follows w h)
    Delivered-IsIndexOf key event w w' ps ps' h follows (again a d) =
        let same = requeued_not_acked _ w.tables _ ps' a (follows w h) in
        Delivered-IsIndexOf key event _ w' ps ps' (λ k. ap (λ ix. ix k) same ∙ h k) follows d

    created_event :
        (params : ProductParams) (p : Product) (event : ProductEvent) (pw : World Tables)
        (v : World Index)
        → (create_product pf formats params pw).0 ≡ ok p
        → Announces p.id product_created_routing_key event pw.tables.outbox
            (create_product pf formats params pw).1.tables.outbox
        → IsIndexOf pf formats v.tables pw.tables.products
        → Follows pf formats reads_back v.tables
            (create_product pf formats params pw).1.tables.products
            (handle_product_created_event product_created_routing_key (some event) v)
    created_event params p event pw v done says h =
        let t' = (create_product pf formats params pw).1.tables in
        elim ((product_changes_atomic pf formats p.id params pw).0) [
          | inl (q, same, (body, is, made, a)) ↦
              let e =
                Announces-payload q.id p.id product_created_routing_key body event pw.tables.outbox
                  t'.outbox a says in
              ap_Follows v.tables t'.products product_created_routing_key body event v e (
                (handled-Follows pf formats reads_back pw.tables t' v h).0 params q
                  (body, is, made, a))
          | inr (e, failed, u) ↦ let bad : ok p ≡ err e = sym done ∙ failed in cc
        ]

    updated_event :
        (id : Uuid) (params : ProductParams) (p : Product) (event : ProductEvent)
        (pw : World Tables) (v : World Index)
        → (update_product pf formats id params pw).0 ≡ ok p
        → Announces p.id product_updated_routing_key event pw.tables.outbox
            (update_product pf formats id params pw).1.tables.outbox
        → IsIndexOf pf formats v.tables pw.tables.products
        → Follows pf formats reads_back v.tables
            (update_product pf formats id params pw).1.tables.products
            (handle_product_created_event product_updated_routing_key (some event) v)
    updated_event id params p event pw v done says h =
        let t' = (update_product pf formats id params pw).1.tables in
        elim ((product_changes_atomic pf formats id params pw).1) [
          | inl (q, same, (body, is, made, a)) ↦
              let e =
                Announces-payload q.id p.id product_updated_routing_key body event pw.tables.outbox
                  t'.outbox a says in
              ap_Follows v.tables t'.products product_updated_routing_key body event v e (
                (handled-Follows pf formats reads_back pw.tables t' v h).1 id params q
                  (body, is, made, a))
          | inr (e, failed, u) ↦ let bad : ok p ≡ err e = sym done ∙ failed in cc
        ]

    deleted_event :
        (id : Uuid) (params : ProductParams) (event : ProductEvent) (pw : World Tables)
        (v : World Index)
        → (remove_product pf formats id pw).0 ≡ ok tt
        → Announces id product_deleted_routing_key event pw.tables.outbox
            (remove_product pf formats id pw).1.tables.outbox
        → IsIndexOf pf formats v.tables pw.tables.products
        → Follows pf formats reads_back v.tables
            (remove_product pf formats id pw).1.tables.products
            (handle_product_created_event product_deleted_routing_key (some event) v)
    deleted_event id params event pw v done says h =
        let t' = (remove_product pf formats id pw).1.tables in
        let body = deleted_payload pf formats id in
        elim ((product_changes_atomic pf formats id params pw).2) [
          | inl (same, (gone, a)) ↦
              let e =
                Announces-payload id id product_deleted_routing_key body event pw.tables.outbox
                  t'.outbox a says in
              ap_Follows v.tables t'.products product_deleted_routing_key body event v e
                ((handled-Follows pf formats reads_back pw.tables t' v h).2 id (gone, a))
          | inr (e, failed, u) ↦ let bad : ok tt ≡ err e = sym done ∙ failed in cc
        ]

    -- The search index implements a view of the product table: if it reads as the table at first,
    -- then after any sequence of successful creations, updates and deletions of products, each
    -- followed by the deliveries of the event that it announced, requeued until one is
    -- acknowledged, it reads as the table again. The text of an id reads back as the id.
    pub index_follows_products :
        (t t' : Tables) (w w' : World Index)
        → IsIndexOf pf formats w.tables t.products
        → History t w t' w'
        → IsIndexOf pf formats w'.tables t'.products
    index_follows_products t t' w w' h started = h
    index_follows_products t t' w w' h (created {v = v} pw params p event before done says d) =
        Delivered-IsIndexOf product_created_routing_key event v w' pw.tables.products t'.products
          (index_follows_products t pw.tables w v h before)
          (λ u. created_event params p event pw u done says) d
    index_follows_products t t' w w' h (updated {v = v} pw id params p event before done says d) =
        Delivered-IsIndexOf product_updated_routing_key event v w' pw.tables.products t'.products
          (index_follows_products t pw.tables w v h before)
          (λ u. updated_event id params p event pw u done says) d
    index_follows_products t t' w w' h (deleted {v = v} pw id params event before done says d) =
        Delivered-IsIndexOf product_deleted_routing_key event v w' pw.tables.products t'.products
          (index_follows_products t pw.tables w v h before)
          (λ u. deleted_event id params event pw u done says) d
