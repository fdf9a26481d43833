-- ===== src/Product/Categories/Changes.antt =====
-- The changes of products and of categories, whatever fails, and the references between them.
use microservices.Postgres.{uuid_generate_v4}
use microservices.Prelude.Rows.{any}
use microservices.Prelude.{inl, inr, Bool-cases, String, Bool, Option, List}
use microservices.Grpc.{Platform, Uuid, ContextState}
use microservices.Effect.{failed, World}
use microservices.Effect.Laws.{
  Keeps, Keeps-pure, Keeps-require, Keeps-bind, Keeps-query, Keeps-transaction,
}
use microservices.Product.{Product, Tables, EventBody, create_outbox_event, is_event}
use microservices.Product.Queries.{
  ProductParams, create_product as insert_product, update_product as change_product,
  delete_product as remove_product,
}
use microservices.Product.Repository.{
  Formats, product_to_payload, add_outbox_event, announce, create_product_tx, create_product,
  update_product_tx, update_product, delete_product_tx, delete_product, deleted_payload,
}
use microservices.Events.{
  ProductEvent, product_created_routing_key, product_updated_routing_key,
  product_deleted_routing_key,
}
use microservices.Product.Categories.{
  GrpcProductCategory, CategoryRequest, State, create_category, update_category, delete_category,
}
use microservices.Product.Categories.References.{
  HasCategories, create_product-HasCategories, update_product-HasCategories,
  delete_product-HasCategories, changes-Kept,
}

create_outbox_event-HasCategories :
    (id : Uuid) (name : String) (body : EventBody) (t : Tables)
    → HasCategories t
    → HasCategories (create_outbox_event id name body t).1
unfolding create_outbox_event
create_outbox_event-HasCategories id name body t h =
    elim (Bool-cases (any (is_event (uuid_generate_v4 t.pg)) t.outbox)) [
      | inl b ↦ rw b h
      | inr b ↦ rw b h
    ]

module _ (pf : Platform) (formats : Formats) where
  add_outbox_event-Keeps :
      (id : Uuid) (key : String) (payload : ProductEvent)
      → Keeps HasCategories (add_outbox_event pf formats id key payload)
  unfolding add_outbox_event
  add_outbox_event-Keeps id key payload =
      Keeps-query (create_outbox_event id _ _) (create_outbox_event-HasCategories id _ _)

  announce-Keeps : (key : String) (p : Product) → Keeps HasCategories (announce pf formats key p)
  unfolding announce
  announce-Keeps key p =
      Keeps-bind _ _ (Keeps-require (product_to_payload pf formats p) failed)
        (λ payload. Keeps-bind _ _ (add_outbox_event-Keeps p.id key payload) (λ u. Keeps-pure p))

  products-Keeps :
      (id : Uuid) (params : ProductParams)
      → Keeps HasCategories (create_product pf formats params)
        × Keeps HasCategories (update_product pf formats id params)
        × Keeps HasCategories (delete_product pf formats id)
  unfolding create_product create_product_tx update_product update_product_tx delete_product
      delete_product_tx
  products-Keeps id params = (
    Keeps-transaction _ (
        Keeps-bind _ _ (Keeps-query (insert_product params) (create_product-HasCategories params))
          (announce-Keeps product_created_routing_key)),
    Keeps-transaction _ (
        Keeps-bind _ _
          (Keeps-query (change_product id params) (update_product-HasCategories id params))
          (announce-Keeps product_updated_routing_key)),
    Keeps-transaction _ (
        Keeps-bind _ _ (Keeps-query (remove_product id) (delete_product-HasCategories id)) (λ u.
          add_outbox_event-Keeps id product_deleted_routing_key (deleted_payload pf formats id))),
  )

  -- Creating, updating and deleting a product or a category, whatever fails on the way, keeps every
  -- product without a category or with one that exists.
  pub changes-HasCategories :
      (le : String → String → Bool)
      (parsed : List GrpcProductCategory → Option (List GrpcProductCategory)) (id : Uuid)
      (params : ProductParams) (w : World Tables) (ctx : ContextState) (req : CategoryRequest)
      (s : World State)
      → HasCategories w.tables
      → HasCategories s.tables.tables
      → HasCategories (create_product pf formats params w).1.tables
        × HasCategories (update_product pf formats id params w).1.tables
        × HasCategories (delete_product pf formats id w).1.tables
        × HasCategories (create_category pf le parsed ctx req s).1.tables.tables
        × HasCategories (update_category pf le parsed ctx req s).1.tables.tables
        × HasCategories (delete_category pf le parsed ctx req.id s).1.tables.tables
  changes-HasCategories le parsed id params w ctx req s h k =
      let (a, b, c) = products-Keeps id params in
      let (d, e, f) = changes-Kept pf le parsed ctx req in
      (a.at w h, b.at w h, c.at w h, d.at s k, e.at s k, f.at s k)
