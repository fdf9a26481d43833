-- ===== src/Product/Service/Calls.antt =====
-- product-service/internal/grpc: the calls on many products and the changes of one.
use microservices.Prelude.{String, Option, none, some, List, [], ◌∷◌, ◌++◌, map}
use microservices.Prelude.Int.{ℤ}
use microservices.Grpc.{Platform, Uuid, Code, invalid_argument, ContextState}
use microservices.Effect.{
  Result, ok, err, Error, Action, ◌>>=◌, ◌>>◌, pure, require, or_else, query, check_live,
  to_internal,
}
use microservices.Product.Queries.{
  ProductParams, get_product as get_product_row, get_products_by_ids as get_rows_by_ids,
  get_products_by_category_id as get_rows_by_category_id, list_products_paginated,
}
use microservices.Product.Repository.{
  Formats, create_product as create_product_row, update_product as update_product_row,
  delete_product as delete_product_row,
}
use microservices.Product.Service.{
  State, GrpcProduct, ProductMap, ProductRequest, usable, cache_key, to_grpc_product, on_tables,
  spawn, get_error, delete_product_cache,
}

abbrev pub to_uuids : Platform → List String → Option (List Uuid)
to_uuids pf [] = some []
to_uuids pf (id ∷ ids) = elim (pf.scan_uuid id) [
  | none ↦ none
  | some uid ↦ elim (to_uuids pf ids) [ none ↦ none | some uids ↦ some (uid ∷ uids) ]
]

-- One goroutine for each product.
abbrev pub cache_products : List GrpcProduct → Action State Code (Unit {0})
cache_products [] w = (ok tt, w)
cache_products (p ∷ ps) w = cache_products ps (spawn p.id p w).1

module _ (pf : Platform) (formats : Formats) (parsed : ProductMap → Option ProductMap) where
  -- An entry that does not parse is neither returned nor missed.
  abbrev pub hit : Option ProductMap → List GrpcProduct → List GrpcProduct
  hit entry ps = elim (usable pf formats parsed entry) [ none ↦ ps | some p ↦ p ∷ ps ]

  abbrev pub miss : String → Option ProductMap → List String → List String
  miss id none ids = id ∷ ids
  miss id (some m) ids = ids

  abbrev pub read_entries :
      (String → Option ProductMap) → List String → List GrpcProduct × List String
  read_entries cache [] = ([], [])
  read_entries cache (id ∷ ids) =
      let (ps, missed) = read_entries cache ids in
      (hit (cache (cache_key id)) ps, miss id (cache (cache_key id)) missed)

  abbrev pub read_or_miss :
      List String → Result Error (List GrpcProduct × List String) → List GrpcProduct × List String
  read_or_miss ids (ok r) = r
  read_or_miss ids (err e) = ([], ids)

  -- The pipeline of lookups: if it fails, every id is missed.
  unfoldable pub get_products_from_cache :
      List String → Action State Code (List GrpcProduct × List String)
  get_products_from_cache ids w =
      let (r, w') = query (λ s. (ok (read_entries s.cache ids), s)) w in
      (ok (read_or_miss ids r), w')

  unfoldable pub get_products_from_db : List String → Action State Code (List GrpcProduct)
  get_products_from_db missed = do
    uids ← require (to_uuids pf missed) invalid_argument
    ps ← or_else (on_tables (query (get_rows_by_ids uids))) to_internal
    pure (map (to_grpc_product pf formats parsed) ps)

  abbrev pub with_missed : List GrpcProduct × List String → Action State Code (List GrpcProduct)
  with_missed (found, []) = pure found
  with_missed (found, id ∷ ids) = do
    ps ← get_products_from_db (id ∷ ids)
    cache_products ps
    pure (found ++ ps)

  -- The context is not checked.
  unfoldable pub get_products_by_ids : List String → Action State Code (List GrpcProduct)
  get_products_by_ids [] = pure []
  get_products_by_ids (id ∷ ids) = do r ← get_products_from_cache (id ∷ ids); with_missed r

  abbrev pub product_params : Uuid → ProductRequest → Option ProductParams
  product_params category req = elim (formats.scan_price req.price) [
    | none ↦ none
    | some price ↦ some (record {
      category_id = category;
      name = req.name;
      description = some req.description;
      price = price;
      stock_quantity = req.stock_quantity;
    })
  ]

  unfoldable pub create_product : ContextState → ProductRequest → Action State Code GrpcProduct
  create_product ctx req = do
    check_live pf ctx
    category ← require (pf.scan_uuid req.category_id) invalid_argument
    params ← require (product_params category req) invalid_argument
    p ← or_else (on_tables (create_product_row pf formats params)) to_internal
    spawn (pf.uuid_string p.id) (to_grpc_product pf formats parsed p)
    pure (to_grpc_product pf formats parsed p)

  unfoldable pub update_product : ContextState → ProductRequest → Action State Code GrpcProduct
  update_product ctx req = do
    check_live pf ctx
    uid ← require (pf.scan_uuid req.id) invalid_argument
    category ← require (pf.scan_uuid req.category_id) invalid_argument
    params ← require (product_params category req) invalid_argument
    p ← or_else (on_tables (update_product_row pf formats uid params)) get_error
    spawn req.id (to_grpc_product pf formats parsed p)
    pure (to_grpc_product pf formats parsed p)

  -- A failure to delete the entry is only logged.
  abbrev pub uncache : String → Action State Code (Unit {0})
  uncache id w = let (r, w') = query (delete_product_cache id) w in (ok tt, w')

  unfoldable pub delete_product : ContextState → String → Action State Code (Unit {0})
  delete_product ctx id = do
    check_live pf ctx
    uid ← require (pf.scan_uuid id) invalid_argument
    or_else (on_tables (query (get_product_row uid))) get_error
    or_else (on_tables (delete_product_row pf formats uid)) to_internal
    uncache id

  unfoldable pub list_products : ContextState → ℤ → ℤ → Action State Code (List GrpcProduct)
  list_products ctx limit offset = do
    check_live pf ctx
    ps ←
        or_else (on_tables (query (list_products_paginated formats.le_text limit offset)))
          to_internal
    pure (map (to_grpc_product pf formats parsed) ps)

  unfoldable pub get_products_by_category_id :
      ContextState → String → Action State Code (List GrpcProduct)
  get_products_by_category_id ctx id = do
    check_live pf ctx
    uid ← require (pf.scan_uuid id) invalid_argument
    ps ← or_else (on_tables (query (get_rows_by_category_id uid))) get_error
    pure (map (to_grpc_product pf formats parsed) ps)
