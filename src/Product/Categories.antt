-- ===== src/Product/Categories.antt =====
-- product-service/internal/grpc/category and internal/repository/product_categories.sql.go: the
-- categories, with the one cache entry that holds all of them.
pub mod References
pub mod Changes
mod Tests
use microservices.Prelude.{
  ℕ, String, Bool, true, false, Option, none, some, List, [], ◌∷◌, ◌++◌, map, ◌==◌, if◌then◌else◌,
  str_eq, not,
}
use microservices.Prelude.Rows.{any, update, delete}
use microservices.Grpc.{Platform, Uuid, Code, internal, not_found, invalid_argument, ContextState}
use microservices.Effect.{
  Result, ok, err, Error, failed, no_rows, World, Action, ◌>>=◌, ◌>>◌, pure, require, guard,
  or_else, query, check_live, to_internal,
}
use microservices.Postgres.{Pg, uuid_generate_v4, drawn_once}
use microservices.Product.{Product, Category, Tables}
use microservices.Product.Queries.{is_category, sort_rows}
use microservices.Product.Repository.{or_empty}

abbrev pub new_category : String → Option String → Pg → Category
new_category name description pg = record {
  id = uuid_generate_v4 pg;
  name = name;
  description = description;
  created_at = pg.now;
  updated_at = none;
}

unfoldable pub create_product_category :
    String → Option String → Tables → Result Error Category × Tables
create_product_category name description t =
    if any (is_category (uuid_generate_v4 t.pg)) t.categories then (err failed, t) else (
      ok (new_category name description t.pg),
      record t {
        categories = t.categories ++ new_category name description t.pg ∷ [];
        pg = drawn_once t.pg;
      },
    )

-- ON DELETE SET NULL
abbrev pub without_category : Uuid → Product → Product
without_category id p = elim p.category_id [
  | none ↦ p
  | some c ↦ if c == id then record p { category_id = none } else p
]

unfoldable pub delete_product_category : Uuid → Tables → Result Error (Unit {0}) × Tables
delete_product_category id t = (
  ok tt,
  record t {
    categories = delete (is_category id) t.categories;
    products = map (without_category id) t.products;
  },
)

-- ORDER BY name, with the collation's order.
unfoldable pub get_product_categories :
    (String → String → Bool) → Tables → Result Error (List Category) × Tables
get_product_categories le t = (ok (sort_rows (λ a b. le a.name b.name) t.categories), t)

abbrev pub with_names : String → Option String → ℕ → Category → Category
with_names name description now c = record c {
  name = name;
  description = description;
  updated_at = some now;
}

unfoldable pub update_product_category :
    Uuid → String → Option String → Tables → Result Error (Unit {0}) × Tables
update_product_category id name description t = (
  ok tt,
  record t {
    categories = update (is_category id) (with_names name description t.pg.now) t.categories;
  },
)

-- product_categoriesv1.ProductCategory.
pub record GrpcProductCategory : Type 0 where
  pub id : String
  pub name : String
  pub description : String
  pub created_at : ℕ
  pub updated_at : Option ℕ

-- A goroutine that waits: one that stores a list, or one that deletes the entry.
pub data Job : Type 0 where
  caches : List GrpcProductCategory → Job
  clears : Job

pub record State : Type 0 where
  pub tables : Tables
  pub cache : Option (List GrpcProductCategory)
  pub jobs : List Job

pub record CategoryRequest : Type 0 where
  pub id : String
  pub name : String
  pub description : String

abbrev pub on_tables : {A : Type 0} → Action Tables Error A → Action State Error A
on_tables m w =
    let (r, v) = m (record { tables = w.tables.tables; faults = w.faults }) in
    (r, record { tables = record w.tables { tables = v.tables }; faults = v.faults })

abbrev pub spawn : Job → Action State Code (Unit {0})
spawn job w = (ok tt, record w { tables = record w.tables { jobs = w.tables.jobs ++ job ∷ [] } })

unfoldable pub delete_product_categories_cache : State → Result Error (Unit {0}) × State
delete_product_categories_cache s = (ok tt, record s { cache = none })

unfoldable pub cache_product_categories :
    List GrpcProductCategory → State → Result Error (Unit {0}) × State
cache_product_categories cs s = (ok tt, record s { cache = some cs })

abbrev pub category_error : Error → Code
category_error no_rows = not_found
category_error _ = internal

abbrev pub optional_text : String → Option String
optional_text s = if str_eq s "" then none else some s

-- `le` is the collation's order, and `parsed` what json.Unmarshal reads of a list that was stored.
module _ (pf : Platform) (le : String → String → Bool)
    (parsed : List GrpcProductCategory → Option (List GrpcProductCategory)) where
  abbrev pub to_grpc_product_category : Category → GrpcProductCategory
  to_grpc_product_category c = record {
    id = pf.uuid_string c.id;
    name = c.name;
    description = or_empty c.description;
    created_at = c.created_at;
    updated_at = c.updated_at;
  }

  -- A missing entry, an error of Redis and a list that does not decode are misses.
  abbrev pub usable :
      Result Error (Option (List GrpcProductCategory)) → Option (List GrpcProductCategory)
  usable (ok (some cs)) = parsed cs
  usable _ = none

  unfoldable pub get_product_categories_from_cache :
      Action State Code (Option (List GrpcProductCategory))
  get_product_categories_from_cache w =
      let (r, v) = query (λ s. (ok s.cache, s)) w in (ok (usable r), v)

  unfoldable pub get_product_categories_from_db : Action State Code (List GrpcProductCategory)
  get_product_categories_from_db = do
    cs ← or_else (on_tables (query (get_product_categories le))) to_internal
    pure (map to_grpc_product_category cs)

  abbrev pub unless_cached :
      Option (List GrpcProductCategory) → Action State Code (List GrpcProductCategory)
  unless_cached (some cs) = pure cs
  unless_cached none = do cs ← get_product_categories_from_db; spawn (caches cs); pure cs

  unfoldable pub get_categories : ContextState → Action State Code (List GrpcProductCategory)
  get_categories ctx = do
    check_live pf ctx
    cached ← get_product_categories_from_cache
    unless_cached cached

  unfoldable pub create_category :
      ContextState → CategoryRequest → Action State Code GrpcProductCategory
  create_category ctx req = do
    check_live pf ctx
    guard (not (str_eq req.name "")) invalid_argument
    c ←
        or_else
          (on_tables (query (create_product_category req.name (optional_text req.description))))
          category_error
    spawn clears
    pure (to_grpc_product_category c)

  unfoldable pub update_category : ContextState → CategoryRequest → Action State Code (Unit {0})
  update_category ctx req = do
    check_live pf ctx
    guard (not (str_eq req.id "")) invalid_argument
    uid ← require (pf.scan_uuid req.id) invalid_argument
    or_else (on_tables (query (update_product_category uid req.name (some req.description))))
        category_error
    spawn clears

  -- A failure to delete the entry is only logged.
  abbrev pub uncache : Action State Code (Unit {0})
  uncache w = let (r, v) = query delete_product_categories_cache w in (ok tt, v)

  unfoldable pub delete_category : ContextState → String → Action State Code (Unit {0})
  delete_category ctx id = do
    check_live pf ctx
    guard (not (str_eq id "")) invalid_argument
    uid ← require (pf.scan_uuid id) invalid_argument
    or_else (on_tables (query (delete_product_category uid))) category_error
    uncache
