-- ===== src/Product/Queries.antt =====
-- product-service/internal/repository/products.sql.go: the statements on products.
use microservices.Prelude.{
  ℕ, zero, suc, String, ◌+◌, ◌/◌, Bool, false, Option, none, some, List, [], ◌∷◌, ◌++◌,
  if◌then◌else◌, ◌==◌, ltb, leb,
}
use microservices.Prelude.Int.{ℤ, pos, negsuc}
use microservices.Prelude.Rows.{find, any, select, update, delete, take}
use microservices.Grpc.{Uuid, Numeric, hundredths, nan}
use microservices.Effect.{Result, ok, err, Error, failed, one_row}
use microservices.Postgres.{Pg, uuid_generate_v4, drawn_once}
use microservices.Product.{Product, Category, Tables}

-- A pgtype.Numeric scanned from a text with six decimals, in millionths, or NaN.
pub data Decimal : Type 0 where
  millionths : ℤ → Decimal
  not_a_number : Decimal

-- NUMERIC(10, 2) rounds half away from zero.
abbrev pub round_up : ℕ → ℕ
round_up n = (n + 5000) / 10000

abbrev pub rounded : ℤ → ℤ
rounded (pos n) = pos (round_up n)
rounded (negsuc n) = elim (round_up (suc n)) [ zero ↦ pos 0 | suc k ↦ negsuc k ]

abbrev pub has_range : ℤ → Bool
has_range (pos n) = ltb n 10000000000
has_range (negsuc n) = ltb (suc n) 10000000000

-- The value of the column, unless it is out of range.
unfoldable pub to_column : Decimal → Option Numeric
to_column not_a_number = some nan
to_column (millionths n) = if has_range (rounded n) then some (hundredths (rounded n)) else none

-- CHECK (stock_quantity >= 0)
abbrev pub to_stock : ℤ → Option ℕ
to_stock (pos n) = some n
to_stock (negsuc n) = none

abbrev pub has_id : Uuid → Product → Bool
has_id id p = p.id == id

abbrev pub is_category : Uuid → Category → Bool
is_category id c = c.id == id

-- CreateProductParams, and the same fields of UpdateProductParams.
pub record ProductParams : Type 0 where
  pub category_id : Uuid
  pub name : String
  pub description : Option String
  pub price : Decimal
  pub stock_quantity : ℤ

-- The columns of a row whose price and stock the table accepts.
pub record Columns : Type 0 where
  pub price_column : Numeric
  pub stock_column : ℕ

abbrev pub columns_of : Option Numeric → Option ℕ → Option Columns
columns_of (some price) (some stock) = some (record { price_column = price; stock_column = stock })
columns_of _ _ = none

-- The checks of a row, its foreign key included.
unfoldable pub checked : ProductParams → Tables → Option Columns
unfolding to_column
checked params t =
    if any (is_category params.category_id) t.categories
    then columns_of (to_column params.price) (to_stock params.stock_quantity)
    else none

abbrev pub new_product : ProductParams → Columns → Pg → Product
new_product params columns pg = record {
  id = uuid_generate_v4 pg;
  category_id = some params.category_id;
  name = params.name;
  description = params.description;
  price = columns.price_column;
  stock_quantity = columns.stock_column;
  created_at = pg.now;
  updated_at = none;
}

abbrev pub inserted : ProductParams → Tables → Option Columns → Result Error Product × Tables
inserted params t none = (err failed, t)
inserted params t (some columns) =
    if any (has_id (uuid_generate_v4 t.pg)) t.products then (err failed, t) else (
      ok (new_product params columns t.pg),
      record t {
        products = t.products ++ new_product params columns t.pg ∷ [];
        pg = drawn_once t.pg;
      },
    )

unfoldable pub create_product : ProductParams → Tables → Result Error Product × Tables
create_product params t = inserted params t (checked params t)

abbrev pub with_params : ProductParams → Columns → ℕ → Product → Product
with_params params columns now p = record p {
  category_id = some params.category_id;
  name = params.name;
  description = params.description;
  price = columns.price_column;
  stock_quantity = columns.stock_column;
  updated_at = some now;
}

abbrev pub changed : Uuid → ProductParams → Tables → Option Columns → Result Error Product × Tables
changed id params t none = (err failed, t)
changed id params t (some columns) = (
  one_row (find (has_id id) (update (has_id id) (with_params params columns t.pg.now) t.products)),
  record t { products = update (has_id id) (with_params params columns t.pg.now) t.products },
)

-- UPDATE products ... WHERE id, returning the row: the checks are for a row that is there.
unfoldable pub update_product : Uuid → ProductParams → Tables → Result Error Product × Tables
update_product id params t =
    if any (has_id id) t.products then changed id params t (checked params t) else (one_row none, t)

unfoldable pub delete_product : Uuid → Tables → Result Error (Unit {0}) × Tables
delete_product id t = (ok tt, record t { products = delete (has_id id) t.products })

unfoldable pub get_product : Uuid → Tables → Result Error Product × Tables
get_product id t = (one_row (find (has_id id) t.products), t)

-- WHERE id = ANY($1)
abbrev pub has_any_id : List Uuid → Product → Bool
has_any_id ids p = any (λ id. p.id == id) ids

unfoldable pub get_products_by_ids : List Uuid → Tables → Result Error (List Product) × Tables
get_products_by_ids ids t = (ok (select (has_any_id ids) t.products), t)

-- ORDER BY, with an order on the rows: rows that it does not tell apart keep the table's order.
abbrev pub insert_row : {A : Type 0} → (A → A → Bool) → A → List A → List A
insert_row le p [] = p ∷ []
insert_row le p (q ∷ qs) = let rest = insert_row le p qs in if le p q then p ∷ q ∷ qs else q ∷ rest

abbrev pub sort_rows : {A : Type 0} → (A → A → Bool) → List A → List A
sort_rows le [] = []
sort_rows le (p ∷ ps) = insert_row le p (sort_rows le ps)

abbrev pub in_category : Uuid → Product → Bool
in_category id p = elim p.category_id [ none ↦ false | some c ↦ c == id ]

abbrev pub by_id : Product → Product → Bool
by_id p q = leb p.id q.id

unfoldable pub get_products_by_category_id : Uuid → Tables → Result Error (List Product) × Tables
get_products_by_category_id id t = (ok (sort_rows by_id (select (in_category id) t.products)), t)

-- OFFSET n.
abbrev pub drop {ℓ} : {A : Type ℓ} → ℕ → List A → List A
drop zero xs = xs
drop (suc n) [] = []
drop (suc n) (x ∷ xs) = drop n xs

abbrev pub page : ℤ → ℤ → List Product → Option (List Product)
page (pos limit) (pos offset) rows = some (take limit (drop offset rows))
page _ _ rows = none

abbrev pub page_result : Option (List Product) → Result Error (List Product)
page_result none = err failed
page_result (some rows) = ok rows

-- ORDER BY name LIMIT OFFSET, with the collation's order; a negative number is an error.
unfoldable pub list_products_paginated :
    (String → String → Bool) → ℤ → ℤ → Tables → Result Error (List Product) × Tables
list_products_paginated le limit offset t =
    (page_result (page limit offset (sort_rows (λ p q. le p.name q.name) t.products)), t)
