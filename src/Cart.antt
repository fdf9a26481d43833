-- ===== src/Cart.antt =====
-- cart-service: the tables of internal/db/migrations with the statements of repository/carts.sql.go and
-- repository/processed_events.sql.go.
pub mod Server
pub mod Consumer
pub mod Invariants
pub mod Calls
pub mod Deliveries
pub mod Found
pub mod Lookup
mod Tests
use microservices.Prelude.{
  ℕ, suc, String, ◌+◌, Bool, true, false, ◌&&◌, ◌||◌, not, Option, none, some, List, [], ◌∷◌, ◌++◌,
  if◌then◌else◌, ◌==◌, ltb, leb, str_eq,
}
use microservices.Prelude.Int.{ℤ, pos, negsuc}
use microservices.Prelude.Rows.{find, any, select, update, delete}
use microservices.Grpc.{Uuid, Numeric, hundredths, nan}
use microservices.Effect.{Result, ok, err, Error, failed, one_row}
use microservices.Postgres.{Pg, uuid_generate_v4, drawn_once}

pub record Cart : Type 0 where
  pub id : Uuid
  pub user_id : Uuid
  pub created_at : ℕ

-- A row of `carts_products`.
pub record CartsProduct : Type 0 where
  pub id : Uuid
  pub cart_id : Uuid
  pub product_id : Uuid
  pub quantity : ℤ
  pub price : Numeric
  pub added_at : ℕ

pub record ProcessedEvent : Type 0 where
  pub id : Uuid
  pub aggregate_id : Uuid
  pub event_name : String
  pub processed_at : ℕ

pub record Tables : Type 0 where
  pub carts : List Cart
  pub products : List CartsProduct
  pub processed : List ProcessedEvent
  pub pg : Pg

abbrev pub has_id : Uuid → Cart → Bool
has_id id c = c.id == id

abbrev pub has_user : Uuid → Cart → Bool
has_user user c = c.user_id == user

abbrev pub in_cart : Uuid → CartsProduct → Bool
in_cart cart r = r.cart_id == cart

-- The unique key (cart_id, product_id).
abbrev pub is_line : Uuid → Uuid → CartsProduct → Bool
is_line cart product r = (r.cart_id == cart) && (r.product_id == product)

unfoldable pub get_cart_by_user_id : Uuid → Tables → Result Error Cart × Tables
get_cart_by_user_id user t = (one_row (find (has_user user) t.carts), t)

abbrev pub new_cart : Uuid → Pg → Cart
new_cart user pg = record { id = uuid_generate_v4 pg; user_id = user; created_at = pg.now }

-- INSERT INTO carts, where the user is unique.
unfoldable pub create_cart : Uuid → Tables → Result Error Cart × Tables
create_cart user t =
    if any (has_id (uuid_generate_v4 t.pg)) t.carts || any (has_user user) t.carts
    then (err failed, t)
    else (
      ok (new_cart user t.pg),
      record t { carts = t.carts ++ new_cart user t.pg ∷ []; pg = drawn_once t.pg },
    )

-- The row belongs to a cart that goes: ON DELETE CASCADE.
abbrev pub cascades : Uuid → List Cart → CartsProduct → Bool
cascades user carts r = any (λ c. (c.id == r.cart_id) && has_user user c) carts

unfoldable pub delete_cart_by_user_id : Uuid → Tables → Result Error (Unit {0}) × Tables
delete_cart_by_user_id user t = (
  ok tt,
  record t {
    carts = delete (has_user user) t.carts;
    products = delete (cascades user t.carts) t.products;
  },
)

unfoldable pub get_cart_products_by_cart_id :
    Uuid → Tables → Result Error (List CartsProduct) × Tables
get_cart_products_by_cart_id cart t = (ok (select (in_cart cart) t.products), t)

abbrev pub is_positive : ℤ → Bool
is_positive (pos n) = ltb 0 n
is_positive (negsuc n) = false

-- NUMERIC(10, 2) NOT NULL
abbrev pub is_money : Numeric → Bool
is_money (hundredths (pos n)) = ltb n 10000000000
is_money (hundredths (negsuc n)) = ltb (suc n) 10000000000
is_money nan = true

abbrev pub new_line : Uuid → Uuid → ℤ → Numeric → Pg → CartsProduct
new_line cart product quantity price pg = record {
  id = uuid_generate_v4 pg;
  cart_id = cart;
  product_id = product;
  quantity = quantity;
  price = price;
  added_at = pg.now;
}

abbrev pub has_line_id : Uuid → CartsProduct → Bool
has_line_id id r = r.id == id

abbrev pub with_quantity : ℤ → CartsProduct → CartsProduct
with_quantity quantity r = record r { quantity = quantity }

-- The checks of the row that the statement proposes, and its foreign key.
unfoldable pub is_refused : Uuid → ℤ → Numeric → Tables → Bool
is_refused cart quantity price t =
    not (any (has_id cart) t.carts) || not (is_positive quantity) || not (is_money price)

-- INSERT INTO carts_products ... ON CONFLICT (cart_id, product_id) DO UPDATE SET quantity.
unfoldable pub add_or_update_product_in_cart :
    Uuid → Uuid → ℤ → Numeric → Tables → Result Error CartsProduct × Tables
add_or_update_product_in_cart cart product quantity price t =
    if is_refused cart quantity price t
    then (err failed, t)
    else if any (is_line cart product) t.products
    then (
      one_row (
          find (is_line cart product)
            (update (is_line cart product) (with_quantity quantity) t.products)),
      record t { products = update (is_line cart product) (with_quantity quantity) t.products },
    )
    else if any (has_line_id (uuid_generate_v4 t.pg)) t.products
    then (err failed, t)
    else (
      ok (new_line cart product quantity price t.pg),
      record t {
        products = t.products ++ new_line cart product quantity price t.pg ∷ [];
        pg = drawn_once t.pg;
      },
    )

-- The sub-select of the user's cart; without one, the comparison with NULL selects no row.
abbrev pub in_cart_of : Option Cart → CartsProduct → Bool
in_cart_of none r = false
in_cart_of (some c) r = in_cart c.id r

unfoldable pub clear_cart_products_by_user_id : Uuid → Tables → Result Error (Unit {0}) × Tables
clear_cart_products_by_user_id user t =
    (ok tt, record t { products = delete (in_cart_of (find (has_user user) t.carts)) t.products })

unfoldable pub remove_product_from_cart : Uuid → Uuid → Tables → Result Error (Unit {0}) × Tables
remove_product_from_cart user product t = (
  ok tt,
  record t {
    products =
        delete (λ r. in_cart_of (find (has_user user) t.carts) r && (r.product_id == product))
          t.products;
  },
)

abbrev pub is_processed : Uuid → String → ProcessedEvent → Bool
is_processed aggregate name e = (e.aggregate_id == aggregate) && str_eq e.event_name name

unfoldable pub get_processed_event : Uuid → String → Tables → Result Error ProcessedEvent × Tables
get_processed_event aggregate name t = (one_row (find (is_processed aggregate name) t.processed), t)

abbrev pub has_processed_id : Uuid → ProcessedEvent → Bool
has_processed_id id e = e.id == id

abbrev pub new_processed_event : Uuid → String → Pg → ProcessedEvent
new_processed_event aggregate name pg = record {
  id = uuid_generate_v4 pg;
  aggregate_id = aggregate;
  event_name = name;
  processed_at = pg.now;
}

-- INSERT INTO processed_events, where (aggregate_id, event_name) is unique.
unfoldable pub create_processed_event : Uuid → String → Tables → Result Error (Unit {0}) × Tables
create_processed_event aggregate name t =
    if any (has_processed_id (uuid_generate_v4 t.pg)) t.processed
      || any (is_processed aggregate name) t.processed
    then (err failed, t)
    else (
      ok tt,
      record t {
        processed = t.processed ++ new_processed_event aggregate name t.pg ∷ [];
        pg = drawn_once t.pg;
      },
    )
