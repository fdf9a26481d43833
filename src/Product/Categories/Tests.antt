-- ===== src/Product/Categories/Tests.antt =====
-- A category that is created, renamed and deleted.
use microservices.Prelude.{ℕ, sym, ◌≡◌, refl, String, Bool, true, Option, none, some, List, [], ◌∷◌}
use microservices.Prelude.Int.{pos}
use microservices.Grpc.{hundredths, live}
use microservices.Samples.{platform, server as pg, letters}
use microservices.Effect.{World, query, check_live}
use microservices.Product.{Product, Tables}
use microservices.Product.Queries.{ProductParams, millionths}
use microservices.Product.Repository.{Formats, create_product, update_product, delete_product}
use microservices.Product.Categories.{
  State, CategoryRequest, GrpcProductCategory, create_category, update_category, delete_category,
  delete_product_category, delete_product_categories_cache, create_product_category,
  update_product_category, get_categories, get_product_categories, get_product_categories_from_db,
  get_product_categories_from_cache,
}
use microservices.Product.Categories.References.{HasCategories}
use microservices.Product.Categories.Changes.{changes-HasCategories}

opened : Unit {0}
unfolding query check_live create_category update_category delete_category delete_product_category
    create_product_category update_product_category delete_product_categories_cache get_categories
    get_product_categories get_product_categories_from_db get_product_categories_from_cache
opened = tt

abbrev formats : Formats
formats = record {
  marshal_json = λ n. some "5";
  scan_price = λ x. some (millionths (pos x));
  price_value = λ n. 0;
  le_text = λ a b. true;
}

abbrev le : String → String → Bool
le a b = true

abbrev mug : Option ℕ → Product
mug category = record {
  id = 7;
  category_id = category;
  name = "mug";
  description = none;
  price = hundredths (pos 500);
  stock_quantity = 3;
  created_at = 1;
  updated_at = none;
}

abbrev shop : Tables
shop = record {
  categories =
      record { id = 3; name = "cups"; description = none; created_at = 1; updated_at = none } ∷ [];
  products = mug (some 3) ∷ [];
  processed = [];
  outbox = [];
  pg = pg;
}

abbrev state : World State
state = record { tables = record { tables = shop; cache = none; jobs = [] }; faults = [] }

abbrev world : World Tables
world = record { tables = shop; faults = [] }

abbrev params : ProductParams
params = record {
  category_id = 3;
  name = "mug";
  description = none;
  price = millionths (pos 5000000);
  stock_quantity = pos 4;
}

abbrev request : CategoryRequest
request = record { id = letters 3; name = "mugs"; description = "" }

abbrev decode : List GrpcProductCategory → Option (List GrpcProductCategory)
decode cs = some cs

clears_references :
    (delete_category platform le decode live (letters 3) state).1.tables.tables.products
    ≡ mug none ∷ []
unfolding opened
clears_references = refl

shop-HasCategories : HasCategories shop
shop-HasCategories = (λ c e. let k : 3 ≡ c = cc in rw (sym k) refl, tt)

changes-HasCategories_example :
    HasCategories (create_product platform formats params world).1.tables
    × HasCategories (update_product platform formats 7 params world).1.tables
    × HasCategories (delete_product platform formats 7 world).1.tables
    × HasCategories (create_category platform le decode live request state).1.tables.tables
    × HasCategories (update_category platform le decode live request state).1.tables.tables
    × HasCategories (delete_category platform le decode live request.id state).1.tables.tables
changes-HasCategories_example =
    changes-HasCategories platform formats le decode 7 params world live request state
      shop-HasCategories shop-HasCategories
