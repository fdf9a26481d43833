-- ===== src/Product/Service/Tests.antt =====
-- A product is created, cached and read.
use microservices.Prelude.Lists.{All}
use microservices.Prelude.{◌≡◌, refl, String, none, some, List, [], ◌∷◌, true}
use microservices.Prelude.Int.{pos}
use microservices.Grpc.{ContextState, live}
use microservices.Samples.{platform, platform-text, server as pg, letters}
use microservices.Effect.{World, ok, query, transaction, check_live}
use microservices.Product.{Tables, create_outbox_event}
use microservices.Product.Queries.{
  millionths, to_column, checked, create_product as insert_product, get_product as select_product,
}
use microservices.Product.Repository.{
  Formats, product_to_payload, add_outbox_event, announce, create_product_tx,
  create_product as create_product_row,
}
use microservices.Product.Service.{
  State, GrpcProduct, ProductMap, CacheJob, ProductRequest, cache_product, cached_product,
  get_product, get_stored_product,
}
use microservices.Product.Service.Calls.{
  create_product, get_products_by_ids, get_products_from_cache, get_products_from_db,
}
use microservices.Product.Service.Laws.{IsFor, IsAsked}
use microservices.Product.Service.Reachable.{started, creates, caches, replies-IsAsked}
use microservices.Product.Service.RoundTrip.{get_product-create_product}

opened : Unit {0}
unfolding query transaction check_live product_to_payload add_outbox_event announce
    create_product_tx create_product_row create_outbox_event insert_product select_product checked
    to_column cache_product cached_product get_product get_stored_product create_product
    get_products_by_ids get_products_from_cache get_products_from_db
opened = tt

abbrev formats : Formats
formats = record {
  marshal_json = λ n. some "5";
  scan_price = λ x. some (millionths (pos x));
  price_value = λ n. 0;
  le_text = λ a b. true;
}

abbrev shop : Tables
shop = record {
  categories =
      record { id = 3; name = "cups"; description = none; created_at = 1; updated_at = none } ∷ [];
  products = [];
  processed = [];
  outbox = [];
  pg = pg;
}

abbrev fresh : World State
fresh = record { tables = record { tables = shop; cache = λ key. none; jobs = [] }; faults = [] }

abbrev mug : ProductRequest
mug = record {
  id = "";
  category_id = letters 3;
  name = "mug";
  description = "";
  price = 5000000;
  stock_quantity = pos 4;
}

abbrev mug_reply : GrpcProduct
mug_reply = record {
  id = letters 100;
  category_id = letters 3;
  name = "mug";
  description = "";
  price = 0;
  stock_quantity = pos 4;
  created_at = 5;
  updated_at = none;
}

creates_mug : (create_product platform formats some live mug fresh).0 ≡ ok mug_reply
unfolding opened
creates_mug = refl

get_product-create_product_example :
    (get_product platform formats some live (letters 100) (record {
      tables = record {
        tables = (create_product platform formats some live mug fresh).1.tables.tables;
        cache = λ key. none;
        jobs = [];
      };
      faults = [];
    })).0
    ≡ ok mug_reply
get_product-create_product_example =
    get_product-create_product platform formats some platform-text live mug fresh mug_reply
      (λ key. none) [] creates_mug refl

abbrev job : CacheJob
job = record { id = letters 100; product = mug_reply }

waits : (create_product platform formats some live mug fresh).1.tables.jobs ≡ job ∷ []
unfolding opened
waits = refl

same_id : (m d : ProductMap) → some m ≡ some d → d.id ≡ m.id
same_id m d h = cc

-- The product is created and cached.
abbrev cached : World State
cached = record {
  tables =
      (cache_product job.id job.product
        (record (create_product platform formats some live mug fresh).1.tables { jobs = [] })).1;
  faults = [];
}

replies-IsAsked_example :
    ((ctx : ContextState) (id : String) (p : GrpcProduct)
      → (get_product platform formats some ctx id cached).0 ≡ ok p
      → IsFor platform id p.id)
    × ((ids : List String) (ps : List GrpcProduct)
        → (get_products_by_ids platform formats some ids cached).0 ≡ ok ps
        → All (λ (p : GrpcProduct). IsAsked platform ids p.id) ps)
replies-IsAsked_example = replies-IsAsked platform formats some platform-text same_id shop cached (
    caches (create_product platform formats some live mug fresh).1.tables [] [] job waits
      (creates fresh live mug started))
