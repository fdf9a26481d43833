-- ===== src/Product.antt =====
-- product-service: the tables of internal/database/migrations, with the statements of
-- repository/products.sql.go (UpdateStockBatch), processed_events.sql.go and outbox_events.sql.go that
-- the consumer of OrderCreated runs.
pub mod Stock
pub mod Queries
pub mod Repository
pub mod Service
pub mod Relayer
pub mod Categories
pub mod Consumer
mod Tests
use microservices.Prelude.{
  ℕ, zero, suc, String, ◌+◌, ◌-◌, Bool, true, false, ◌&&◌, ◌||◌, not, Option, none, some, List, [],
  ◌∷◌, ◌++◌, map, if◌then◌else◌, ◌==◌, leb, str_eq,
}
use microservices.Prelude.Int.{ℤ, pos, negsuc}
use microservices.Prelude.Rows.{find, any, select, length}
use microservices.Grpc.{Uuid, Numeric}
use microservices.Effect.{Result, ok, err, Error, failed, one_row}
use microservices.Postgres.{Pg, uuid_generate_v4, drawn_once}
use microservices.Events.{OrderItem, StockUpdateFailedEvent, ProductEvent}

-- A row of `products`: CHECK (stock_quantity >= 0) is the type of the stock.
pub record Product : Type 0 where
  pub id : Uuid
  pub category_id : Option Uuid
  pub name : String
  pub description : Option String
  pub price : Numeric
  pub stock_quantity : ℕ
  pub created_at : ℕ
  pub updated_at : Option ℕ

pub record ProcessedEvent : Type 0 where
  pub id : Uuid
  pub aggregate_id : Uuid
  pub event_name : String
  pub processed_at : ℕ

pub data OutboxEventStatus : Type 0 where
  unpublished published : OutboxEventStatus

-- What a JSON payload of the outbox stands for.
pub data EventBody : Type 0 where
  stock_failure : StockUpdateFailedEvent → EventBody
  product_event : ProductEvent → EventBody

pub record OutboxEvent : Type 0 where
  pub id : Uuid
  pub aggregate_id : Uuid
  pub event_name : String
  pub payload : EventBody
  pub status : OutboxEventStatus
  pub created_at : ℕ
  pub published_at : Option ℕ

pub record Category : Type 0 where
  pub id : Uuid
  pub name : String
  pub description : Option String
  pub created_at : ℕ
  pub updated_at : Option ℕ

pub record Tables : Type 0 where
  pub categories : List Category
  pub products : List Product
  pub processed : List ProcessedEvent
  pub outbox : List OutboxEvent
  pub pg : Pg

-- What PostgreSQL decides in UpdateStockBatch: the cast of a text to uuid, and which one of several
-- matching lines of the batch an UPDATE ... FROM uses for a row.
pub record Server : Type 0 where
  pub cast_uuid : String → Option Uuid
  pub choice : Uuid → ℕ

-- A row of json_to_recordset($1) AS p("productId" uuid, quantity int).
pub record Line : Type 0 where
  pub product_id : Uuid
  pub quantity : ℤ

abbrev pub is_int : ℤ → Bool
is_int (pos n) = leb n 2147483647
is_int (negsuc n) = leb n 2147483647

abbrev pub cast_line : Server → OrderItem → Option Line
cast_line server item =
    if is_int item.quantity
    then elim (server.cast_uuid item.product_id) [
      | none ↦ none
      | some id ↦ some (record { product_id = id; quantity = item.quantity })
    ]
    else none

abbrev pub add_line : Option Line → Option (List Line) → Option (List Line)
add_line (some line) (some lines) = some (line ∷ lines)
add_line _ _ = none

-- A line that does not cast fails the statement.
unfoldable pub json_to_recordset : Server → List OrderItem → Option (List Line)
json_to_recordset server [] = some []
json_to_recordset server (item ∷ items) =
    add_line (cast_line server item) (json_to_recordset server items)

-- products.stock_quantity >= p.quantity
abbrev pub covers : ℕ → ℤ → Bool
covers stock (pos n) = leb n stock
covers stock (negsuc n) = true

-- products.stock_quantity - p.quantity, where the stock covers the quantity.
abbrev pub less : ℕ → ℤ → ℕ
less stock (pos n) = stock - n
less stock (negsuc n) = stock + (n + 1)

-- The condition that joins a line to a row.
unfoldable pub joins : Product → Line → Bool
joins p line = (p.id == line.product_id) && covers p.stock_quantity line.quantity

abbrev pub nth_line : ℕ → Line → List Line → Line
nth_line zero line lines = line
nth_line (suc n) line [] = line
nth_line (suc n) line (next ∷ lines) = nth_line n next lines

abbrev pub chosen : ℕ → List Line → Option Line
chosen n [] = none
chosen n (line ∷ lines) = some (nth_line n line lines)

-- The line that updates a row, if one joins it.
unfoldable pub line_for : Server → List Line → Product → Option Line
line_for server lines p = chosen (server.choice p.id) (select (joins p) lines)

abbrev pub updated : ℕ → Product → Option Line → Product
updated now p none = p
updated now p (some line) = record p {
  stock_quantity = less p.stock_quantity line.quantity;
  updated_at = some now;
}

abbrev pub is_some : {A : Type 0} → Option A → Bool
is_some none = false
is_some (some a) = true

unfoldable pub update_rows : Server → ℕ → List Line → List Product → List Product
update_rows server now lines [] = []
update_rows server now lines (p ∷ ps) =
    updated now p (line_for server lines p) ∷ update_rows server now lines ps

-- RowsAffected()
unfoldable pub rows_affected : Server → List Line → List Product → ℕ
rows_affected server lines ps = length (select (λ p. is_some (line_for server lines p)) ps)

-- `integer out of range`
abbrev pub overflows : Product → Bool
overflows p = not (leb p.stock_quantity 2147483647)

unfoldable pub update_stock_batch : Server → List OrderItem → Tables → Result Error ℕ × Tables
update_stock_batch server items t = elim (json_to_recordset server items) [
  | none ↦ (err failed, t)
  | some lines ↦
      if any overflows (update_rows server t.pg.now lines t.products) then (err failed, t) else (
        ok (rows_affected server lines t.products),
        record t { products = update_rows server t.pg.now lines t.products },
      )
]

abbrev pub is_processed : Uuid → String → ProcessedEvent → Bool
is_processed aggregate name e = (e.aggregate_id == aggregate) && str_eq e.event_name name

unfoldable pub get_processed_event : Uuid → String → Tables → Result Error ProcessedEvent × Tables
get_processed_event aggregate name t = (one_row (find (is_processed aggregate name) t.processed), t)

abbrev pub has_processed_id : Uuid → ProcessedEvent → Bool
has_processed_id id e = e.id == id

abbrev pub new_processed_event : Uuid → String → Pg → ProcessedEvent
new_processed_event aggregate name pg = record {
  id = uuid_generate_v4 pg;
  aggregate_id = aggregate;
  event_name = name;
  processed_at = pg.now;
}

unfoldable pub create_processed_event : Uuid → String → Tables → Result Error (Unit {0}) × Tables
create_processed_event aggregate name t =
    if any (has_processed_id (uuid_generate_v4 t.pg)) t.processed then (err failed, t) else (
      ok tt,
      record t {
        processed = t.processed ++ new_processed_event aggregate name t.pg ∷ [];
        pg = drawn_once t.pg;
      },
    )

abbrev pub is_event : Uuid → OutboxEvent → Bool
is_event id e = e.id == id

abbrev pub new_event : Uuid → String → EventBody → Pg → OutboxEvent
new_event aggregate name payload pg = record {
  id = uuid_generate_v4 pg;
  aggregate_id = aggregate;
  event_name = name;
  payload = payload;
  status = unpublished;
  created_at = pg.now;
  published_at = none;
}

unfoldable pub create_outbox_event :
    Uuid → String → EventBody → Tables → Result Error (Unit {0}) × Tables
create_outbox_event aggregate name payload t =
    if any (is_event (uuid_generate_v4 t.pg)) t.outbox then (err failed, t) else (
      ok tt,
      record t {
        outbox = t.outbox ++ new_event aggregate name payload t.pg ∷ [];
        pg = drawn_once t.pg;
      },
    )
