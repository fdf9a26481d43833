-- ===== src/Search/Tests.antt =====
-- Concrete searches, and a product that is created, changed and deleted.
use microservices.Prelude.{
  ◌≡◌, ◌≢◌, refl, ◌⊎◌, String, none, some, [], ◌∷◌, zero, suc, ℕ, if◌then◌else◌, true, false,
  str_eq,
}
use microservices.Prelude.Int.{ℤ, pos, negsuc}
use microservices.Grpc.{hundredths}
use microservices.Samples.{platform, platform-text, server as pg, letters}
use microservices.Effect.{World, ok, err, Error, query, transaction}
use microservices.Web.{respond_with_json}
use microservices.Events.{product_event_name, ProductEvent, product_created_routing_key}
use microservices.Postgres.{drawn_once}
use microservices.Product.{Product, Tables, create_outbox_event, new_event, product_event}
use microservices.Product.Queries.{
  ProductParams, millionths, to_column, checked, create_product as insert_product,
}
use microservices.Product.Repository.{
  Formats, product_to_payload, add_outbox_event, announce, create_product_tx, create_product,
  update_product, delete_product,
}
use microservices.Product.Repository.Laws.{
  product_changes_atomic, CreatedWith, UpdatedWith, DeletedWith, Announces,
}
use microservices.Search.{
  Index, index_document, delete_document, index_product, delete_product as unindex_product,
  handle_product_created_event,
}
use microservices.Search.History.{
  started, created, index_follows_products, Delivered, accepted, again,
}
use microservices.Search.Documents.{IsIndexOf}
use microservices.Search.Handler.{
  Query, Reply, unreachable, hits, Parameters, InWindow, search_query, search_product,
  search_product-InWindow, search_product-hits,
}

opened : Unit {0}
unfolding index_document delete_document index_product unindex_product handle_product_created_event
    query transaction product_to_payload add_outbox_event announce create_product_tx create_product
    create_outbox_event insert_product checked to_column search_query search_product
    respond_with_json
opened = tt

abbrev formats : Formats
formats = record {
  marshal_json = λ n. some "5";
  scan_price = λ x. some (millionths (pos x));
  price_value = λ n. 0;
  le_text = λ a b. true;
}

abbrev mug : ProductParams
mug = record {
  category_id = 3;
  name = "mug";
  description = none;
  price = millionths (pos 5000000);
  stock_quantity = pos 4;
}

abbrev shop : World Tables
shop = record {
  tables = record {
    categories =
        record { id = 3; name = "cups"; description = none; created_at = 1; updated_at = none }
        ∷ [];
    products = [];
    processed = [];
    outbox = [];
    pg = pg;
  };
  faults = [];
}

abbrev empty_index : World Index
empty_index = record { tables = λ key. none; faults = true ∷ false ∷ [] }

abbrev mug_event : ProductEvent
mug_event = record {
  id = letters 100;
  category_id = letters 3;
  name = "mug";
  description = "";
  price = "5";
  stock_quantity = pos 4;
}

abbrev new_mug : Product
new_mug = record {
  id = 100;
  category_id = some 3;
  name = "mug";
  description = none;
  price = hundredths (pos 500);
  stock_quantity = 4;
  created_at = 5;
  updated_at = none;
}

creates : (create_product platform formats mug shop).0 ≡ ok new_mug
unfolding opened
creates = refl

announces :
    Announces 100 product_created_routing_key mug_event []
      (create_product platform formats mug shop).1.tables.outbox
unfolding opened
announces = record {
  event =
      new_event 100 (product_event_name product_created_routing_key) (product_event mug_event)
        (drawn_once pg);
  added = refl;
  aggregate = refl;
  named = refl;
  body = refl;
  pending = refl;
}

-- The search engine fails once, so the message is delivered twice.
delivered :
    Delivered product_created_routing_key mug_event empty_index
      (handle_product_created_event product_created_routing_key
        (some mug_event)
        (handle_product_created_event product_created_routing_key (some mug_event) empty_index).1).1
unfolding opened
delivered = again refl (accepted refl)

index_follows_products_example :
    IsIndexOf platform formats
      (handle_product_created_event product_created_routing_key
        (some mug_event)
        (handle_product_created_event product_created_routing_key
          (some mug_event)
          empty_index).1).1.tables
      (create_product platform formats mug shop).1.tables.products
index_follows_products_example =
    index_follows_products platform formats platform-text shop.tables
      (create_product platform formats mug shop).1.tables empty_index _ (λ key. refl)
      (created shop mug new_mug mug_event started creates announces delivered)

product_changes_atomic_example :
    (((p : Product) × ((create_product platform formats mug shop).0 ≡ ok p)
        × CreatedWith platform formats mug shop.tables p
            (create_product platform formats mug shop).1.tables)
      ⊎ ((e : Error) × ((create_product platform formats mug shop).0 ≡ err e)
          × ((create_product platform formats mug shop).1.tables ≡ shop.tables)))
    × (((p : Product) × ((update_product platform formats 7 mug shop).0 ≡ ok p)
          × UpdatedWith platform formats 7 mug shop.tables p
              (update_product platform formats 7 mug shop).1.tables)
        ⊎ ((e : Error) × ((update_product platform formats 7 mug shop).0 ≡ err e)
            × ((update_product platform formats 7 mug shop).1.tables ≡ shop.tables)))
    × ((((delete_product platform formats 7 shop).0 ≡ ok tt)
          × DeletedWith platform formats 7 shop.tables
              (delete_product platform formats 7 shop).1.tables)
        ⊎ ((e : Error) × ((delete_product platform formats 7 shop).0 ≡ err e)
            × ((delete_product platform formats 7 shop).1.tables ≡ shop.tables)))
product_changes_atomic_example = product_changes_atomic platform formats 7 mug shop

abbrev number : String → ℤ
number s = if str_eq s "3" then pos 3 else pos 0

abbrev digits : ℕ → String
digits n = "503"

abbrev parameters : Parameters
parameters = record { q = "mug"; size_text = "3"; from_text = "x" }

abbrev engine : Query → Reply
engine query = hits (pos 1) (mug_event ∷ [])

-- An engine that fails on a query that it should not be asked.
abbrev strict : Query → Reply
strict query = elim query.size [
  | pos zero ↦ unreachable "size"
  | pos (suc n) ↦ engine query
  | negsuc n ↦ unreachable "size"
]

strict_enough : (query : Query) → InWindow query → engine query ≡ strict query
strict_enough query w = rw w.counts refl

search_product-InWindow_example :
    search_product number digits engine "/" parameters
    ≡ search_product number digits strict "/" parameters
search_product-InWindow_example =
    search_product-InWindow number digits engine strict "/" parameters strict_enough

abbrev found_status : ℕ
found_status = 200

search_product-hits_example :
    (found_status ≡ 200)
    × (parameters.q ≢ "")
    × InWindow (search_query number digits parameters)
    × (total : ℤ) × (total ≢ pos 0)
    × (engine (search_query number digits parameters) ≡ hits total (mug_event ∷ []))
unfolding opened
search_product-hits_example =
    search_product-hits number digits engine "/" parameters found_status (mug_event ∷ []) refl
