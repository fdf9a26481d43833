-- ===== src/Search/Refinement.antt =====
-- search-service/internal/events/consumers/product/consumer.go: one delivery of the event of a
-- changed product.
use microservices.Prelude.{
  ◌≡◌, refl, ap, sym, ◌∙◌, ◌⊎◌, inl, inr, String, none, some, List, Option-cases, if◌then◌else◌,
  str_eq,
}
use microservices.Prelude.Rows.{find, update, delete}
use microservices.Grpc.{Platform, Uuid}
use microservices.Effect.{World}
use microservices.Effect.Laws.{query-cases}
use microservices.Events.{
  ProductEvent, Delivery, ack, nack_requeue, product_created_routing_key,
  product_updated_routing_key, product_deleted_routing_key,
}
use microservices.Product.{Product, Tables}
use microservices.Product.Queries.{ProductParams, has_id, with_params}
use microservices.Product.Repository.{Formats, product_to_payload, deleted_payload, payload_with}
use microservices.Product.Repository.Laws.{CreatedWith, UpdatedWith, DeletedWith, Created, Updated}
use microservices.Product.Service.Laws.{find-id}
use microservices.Search.{
  Index, index_document, delete_document, handle_product_created_event, index_product,
  delete_product,
}
use microservices.Search.Documents.{
  documents, IsIndexOf, documents-append, documents-update, documents-delete, put-some,
  same_branches,
}

module _ (pf : Platform) (formats : Formats) where
  module _ (reads_back : (u : Uuid) → pf.scan_uuid (pf.uuid_string u) ≡ some u) where
    -- What a delivery of an event comes to: the index reads as the new table, or the message is
    -- requeued and the index is as it was.
    abbrev pub Follows : Index → List Product → Delivery × World Index → Type 0
    Follows ix after r =
        ((r.0 ≡ ack) × IsIndexOf pf formats r.1.tables after)
        ⊎ ((r.0 ≡ nack_requeue) × (r.1.tables ≡ ix))

    index_product-Follows :
        (event : ProductEvent) (w : World Index) (ps ps' : List Product)
        → IsIndexOf pf formats w.tables ps
        → ((key : String)
            → documents pf formats ps' key
              ≡ (if str_eq event.id key then some event else documents pf formats ps key))
        → Follows w.tables ps' (index_product event w)
    unfolding index_product index_document
    index_product-Follows event w ps ps' h k =
        elim (query-cases (index_document event.id event) w) [
          | inl (fs, e) ↦ rw e (inr (refl, refl))
          | inr (fs, e) ↦
              rw e (
                inl
                  (refl, put-some pf formats reads_back event.id (some event) w.tables ps ps' h k))
        ]

    delete_product-Follows :
        (event : ProductEvent) (w : World Index) (ps ps' : List Product)
        → IsIndexOf pf formats w.tables ps
        → ((key : String)
            → documents pf formats ps' key
              ≡ (if str_eq event.id key then none else documents pf formats ps key))
        → Follows w.tables ps' (delete_product event w)
    unfolding delete_product delete_document
    delete_product-Follows event w ps ps' h k = elim (query-cases (delete_document event.id) w) [
      | inl (fs, e) ↦ rw e (inr (refl, refl))
      | inr (fs, e) ↦ elim (Option-cases (w.tables event.id)) [
        | inl n ↦ rw (e, delete_document, n) (inr (refl, refl))
        | inr (doc, n) ↦
            rw (e, delete_document, n)
              (inl (refl, put-some pf formats reads_back event.id none w.tables ps ps' h k))
      ]
    ]

    payload-id :
        (p : Product) (event : ProductEvent)
        → product_to_payload pf formats p ≡ some event
        → event.id ≡ pf.uuid_string p.id
    unfolding product_to_payload
    payload-id p event h = elim (Option-cases (formats.marshal_json p.price)) [
      | inl n ↦ let bad = rw (product_to_payload, n) at h in cc
      | inr (price, n) ↦
          let k : some (payload_with pf formats p price) ≡ some event =
            rw (product_to_payload, n) at h in
          let e : payload_with pf formats p price ≡ event = cc in
          sym (ap (λ (x : ProductEvent). x.id) e)
    ]

    document_appears :
        (params : ProductParams) (t : Tables) (p : Product) (after : List Product)
        (event : ProductEvent) (key : String)
        → Created params t p after
        → product_to_payload pf formats p ≡ some event
        → documents pf formats after key
          ≡ (if str_eq event.id key then some event else documents pf formats t.products key)
    document_appears params t p after event key c body =
        ap (λ ps. documents pf formats ps key) c.added
        ∙ documents-append pf formats reads_back t.products p key c.new_id
        ∙ same_branches (pf.uuid_string p.id) event.id key (product_to_payload pf formats p)
            (some event) (documents pf formats t.products key) (sym (payload-id p event body)) body

    document_changes :
        (id : Uuid) (params : ProductParams) (t : Tables) (p : Product) (after : List Product)
        (event : ProductEvent) (key : String)
        → Updated id params t p after
        → product_to_payload pf formats p ≡ some event
        → documents pf formats after key
          ≡ (if str_eq event.id key then some event else documents pf formats t.products key)
    document_changes id params t p after event key u body =
        let found : find (has_id id)
              (update (has_id id) (with_params params u.columns t.pg.now) t.products)
            ≡ some p =
          rw u.changed at u.found in
        let text : event.id ≡ pf.uuid_string id =
          payload-id p event body ∙ ap pf.uuid_string (find-id id after p u.found) in
        let f = with_params params u.columns t.pg.now in
        ap (λ ps. documents pf formats ps key) u.changed
        ∙ documents-update pf formats reads_back id f t.products p (some event) key (λ q. refl)
            (found) body
        ∙ same_branches (pf.uuid_string id) event.id key (some event) (some event)
            (documents pf formats t.products key) (sym text) refl

    document_goes :
        (id : Uuid) (t t' : Tables) (key : String)
        → t'.products ≡ delete (has_id id) t.products
        → documents pf formats t'.products key
          ≡ (if str_eq (pf.uuid_string id) key then none else documents pf formats t.products key)
    document_goes id t t' key e = rw e (documents-delete pf formats reads_back id t.products key)

    pub handled-Follows :
        (t t' : Tables) (w : World Index)
        → IsIndexOf pf formats w.tables t.products
        → ((params : ProductParams) (p : Product) (c : CreatedWith pf formats params t p t')
            → Follows w.tables t'.products
                (handle_product_created_event product_created_routing_key (some c.0) w))
          × ((id : Uuid) (params : ProductParams) (p : Product)
                (u : UpdatedWith pf formats id params t p t')
              → Follows w.tables t'.products
                  (handle_product_created_event product_updated_routing_key (some u.0) w))
          × ((id : Uuid)
              → DeletedWith pf formats id t t'
              → Follows w.tables t'.products (
                  handle_product_created_event product_deleted_routing_key
                    (some (deleted_payload pf formats id))
                    w))
    unfolding handle_product_created_event
    handled-Follows t t' w h = (
      λ params p (event, body, c, a).
          index_product-Follows event w t.products t'.products h
            (λ key. document_appears params t p t'.products event key c body),
      λ id params p (event, body, u, a).
          index_product-Follows event w t.products t'.products h
            (λ key. document_changes id params t p t'.products event key u body),
      λ id (gone, a).
          delete_product-Follows (deleted_payload pf formats id) w t.products t'.products h
            (λ key. document_goes id t t' key gone),
    )
