-- ===== src/Product/Service.antt =====
-- product-service/internal/grpc: the calls on products, and the goroutines that fill the cache.
-- The state holds the tables, the entries of the cache and the goroutines that have not run yet.
pub mod Calls
pub mod Laws
pub mod Replies
pub mod Reachable
pub mod RoundTrip
mod Tests
use microservices.Prelude.{
  ℕ, String, ◌*◌, ◌/◌, Bool, true, false, Option, none, some, List, [], ◌∷◌, ◌++◌, map,
  if◌then◌else◌, str_eq, text_append,
}
use microservices.Prelude.Int.{ℤ, pos}
use microservices.Grpc.{
  Platform, Uuid, Numeric, Float64, hundredths, nan, Code, internal, not_found, invalid_argument,
  ContextState,
}
use microservices.Effect.{
  Result, ok, err, Error, no_rows, World, Action, ◌>>=◌, ◌>>◌, pure, raise, require, or_else, query,
  check_live, to_internal,
}
use microservices.Product.{Product, Tables}
use microservices.Product.Queries.{
  ProductParams, get_product as get_product_row, get_products_by_ids as get_rows_by_ids,
  get_products_by_category_id as get_rows_by_category_id, list_products_paginated,
}
use microservices.Product.Repository.{
  Formats, create_product as create_product_row, update_product as update_product_row,
  delete_product as delete_product_row, or_empty, category_text,
}

-- productv1.Product; times are in microseconds.
pub record GrpcProduct : Type 0 where
  pub id : String
  pub category_id : String
  pub name : String
  pub description : String
  pub price : Float64
  pub stock_quantity : ℤ
  pub created_at : ℕ
  pub updated_at : Option ℕ

-- The hash of a product in Redis; times are in seconds.
pub record ProductMap : Type 0 where
  pub id : String
  pub category_id : String
  pub name : String
  pub description : String
  pub price : Float64
  pub stock_quantity : ℤ
  pub created_at : ℕ
  pub updated_at : ℕ

pub record CacheJob : Type 0 where
  pub id : String
  pub product : GrpcProduct

pub record State : Type 0 where
  pub tables : Tables
  pub cache : String → Option ProductMap
  pub jobs : List CacheJob

abbrev pub product_cache_prefix : String
product_cache_prefix = "product:"

abbrev pub cache_key : String → String
cache_key id = text_append product_cache_prefix id

abbrev pub seconds : ℕ → ℕ
seconds t = t / 1000000

-- A time that is nil is the Unix time 0.
abbrev pub unix : Option ℕ → ℕ
unix none = 0
unix (some t) = seconds t

abbrev pub product_to_map : GrpcProduct → ProductMap
product_to_map p = record {
  id = p.id;
  category_id = p.category_id;
  name = p.name;
  description = p.description;
  price = p.price;
  stock_quantity = p.stock_quantity;
  created_at = seconds p.created_at;
  updated_at = unix p.updated_at;
}

abbrev pub map_to_product : ProductMap → GrpcProduct
map_to_product m = record {
  id = m.id;
  category_id = m.category_id;
  name = m.name;
  description = m.description;
  price = m.price;
  stock_quantity = m.stock_quantity;
  created_at = m.created_at * 1000000;
  updated_at = some (m.updated_at * 1000000);
}

abbrev pub put_entry : String → Option ProductMap → State → State
put_entry id entry s = record s {
  cache = λ key. if str_eq (cache_key id) key then entry else s.cache key;
}

unfoldable pub cache_product : String → GrpcProduct → State → Result Error (Unit {0}) × State
cache_product id p s = (ok tt, put_entry id (some (product_to_map p)) s)

unfoldable pub delete_product_cache : String → State → Result Error (Unit {0}) × State
delete_product_cache id s = (ok tt, put_entry id none s)

-- A call of the database in the state of the service.
abbrev pub on_tables : {A : Type 0} → Action Tables Error A → Action State Error A
on_tables m w =
    let (r, v) = m (record { tables = w.tables.tables; faults = w.faults }) in
    (r, record { tables = record w.tables { tables = v.tables }; faults = v.faults })

-- `go func`: the product waits to be cached.
abbrev pub spawn : String → GrpcProduct → Action State Code (Unit {0})
spawn id p w = (
  ok tt,
  record w {
    tables = record w.tables { jobs = w.tables.jobs ++ record { id = id; product = p } ∷ [] };
  },
)

abbrev pub get_error : Error → Code
get_error no_rows = not_found
get_error _ = internal

-- The fields of products.
pub record ProductRequest : Type 0 where
  pub id : String
  pub category_id : String
  pub name : String
  pub description : String
  pub price : Float64
  pub stock_quantity : ℤ

-- `parsed` is what strconv reads of the fields that Redis holds for a product, or `none` on an error.
module _ (pf : Platform) (formats : Formats) (parsed : ProductMap → Option ProductMap) where
  abbrev pub price_of : Numeric → Float64
  price_of price = formats.price_value price

  abbrev pub to_grpc_product : Product → GrpcProduct
  to_grpc_product p = record {
    id = pf.uuid_string p.id;
    category_id = category_text pf formats p.category_id;
    name = p.name;
    description = or_empty p.description;
    price = price_of p.price;
    stock_quantity = pos p.stock_quantity;
    created_at = p.created_at;
    updated_at = p.updated_at;
  }

  -- HGetAll: `none` for a missing entry.
  abbrev pub entry_of : String → State → Result Error (Option ProductMap) × State
  entry_of id s = (ok (s.cache (cache_key id)), s)

  abbrev pub usable : Option ProductMap → Option GrpcProduct
  usable none = none
  usable (some m) = elim (parsed m) [ none ↦ none | some d ↦ some (map_to_product d) ]

  abbrev pub usable_entry : Result Error (Option ProductMap) → Option GrpcProduct
  usable_entry (ok entry) = usable entry
  usable_entry (err e) = none

  -- The lookup at the start of GetProduct: an error of Redis counts as a miss.
  unfoldable pub cached_product : String → Action State Code (Option GrpcProduct)
  cached_product id w = let (r, w') = query (entry_of id) w in (ok (usable_entry r), w')

  unfoldable pub get_stored_product : String → Action State Code GrpcProduct
  get_stored_product id = do
    uid ← require (pf.scan_uuid id) invalid_argument
    p ← or_else (on_tables (query (get_product_row uid))) get_error
    spawn id (to_grpc_product p)
    pure (to_grpc_product p)

  abbrev pub unless_cached : String → Option GrpcProduct → Action State Code GrpcProduct
  unless_cached id none = get_stored_product id
  unless_cached id (some p) = pure p

  unfoldable pub get_product : ContextState → String → Action State Code GrpcProduct
  get_product ctx id = do check_live pf ctx; cached ← cached_product id; unless_cached id cached
