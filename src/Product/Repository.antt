-- ===== src/Product/Repository.antt =====
-- product-service/internal/repository/postgres/product_repository.go: a change of a product and the
-- event that announces it, in one transaction.
pub mod Laws
use microservices.Prelude.{
  ℕ, String, Bool, ◌&&◌, Option, none, some, if◌then◌else◌, ◌-◌, leb, len, slice, starts_with,
  str_eq,
}
use microservices.Prelude.Int.{pos}
use microservices.Grpc.{Platform, Uuid, Numeric, Float64}
use microservices.Effect.{Error, failed, Action, ◌>>=◌, ◌>>◌, pure, require, query, transaction}
use microservices.Events.{
  ProductEvent, product_event_name, product_created_routing_key, product_updated_routing_key,
  product_deleted_routing_key,
}
use microservices.Product.{Product, Tables, EventBody, product_event, create_outbox_event}
use microservices.Product.Queries.{
  Decimal, ProductParams, create_product as insert_product, update_product as change_product,
  delete_product as remove_product,
}

-- What the service uses of other packages: Numeric.MarshalJSON, Numeric.Scan of a float64 printed by
-- %f, the float64 that strconv.ParseFloat reads from Numeric.Value (0 on an error), and the order of
-- the database's collation.
pub record Formats : Type 0 where
  pub marshal_json : Numeric → Option String
  pub scan_price : Float64 → Option Decimal
  pub price_value : Numeric → Float64
  pub le_text : String → String → Bool

abbrev pub quote : String
quote = "\""

abbrev pub is_quoted : String → Bool
is_quoted text =
    leb 2 (len text)
    && starts_with text quote
    && str_eq (slice text (len text - 1) (len text)) quote

-- The text without a pair of quotes around it.
abbrev pub without_quotes : String → String
without_quotes text = if is_quoted text then slice text 1 (len text - 1) else text

abbrev pub or_empty : Option String → String
or_empty none = ""
or_empty (some text) = text

module _ (pf : Platform) (formats : Formats) where
  abbrev pub category_text : Option Uuid → String
  category_text none = ""
  category_text (some id) = pf.uuid_string id

  abbrev pub payload_with : Product → String → ProductEvent
  payload_with p price = record {
    id = pf.uuid_string p.id;
    category_id = category_text p.category_id;
    name = p.name;
    description = or_empty p.description;
    price = without_quotes price;
    stock_quantity = pos p.stock_quantity;
  }

  unfoldable pub product_to_payload : Product → Option ProductEvent
  product_to_payload p = elim (formats.marshal_json p.price) [
    | none ↦ none
    | some price ↦ some (payload_with p price)
  ]

  abbrev pub deleted_payload : Uuid → ProductEvent
  deleted_payload id = record {
    id = pf.uuid_string id;
    category_id = "";
    name = "";
    description = "";
    price = "";
    stock_quantity = pos 0;
  }

  unfoldable pub add_outbox_event : Uuid → String → ProductEvent → Action Tables Error (Unit {0})
  add_outbox_event id key payload =
      query (create_outbox_event id (product_event_name key) (product_event payload))

  -- The event of a row that a statement returned, and the row.
  unfoldable pub announce : String → Product → Action Tables Error Product
  announce key p = do
    payload ← require (product_to_payload p) failed
    add_outbox_event p.id key payload
    pure p

  unfoldable pub create_product_tx : ProductParams → Action Tables Error Product
  create_product_tx params = do
    p ← query (insert_product params)
    announce product_created_routing_key p

  unfoldable pub create_product : ProductParams → Action Tables Error Product
  create_product params = transaction (create_product_tx params)

  unfoldable pub update_product_tx : Uuid → ProductParams → Action Tables Error Product
  update_product_tx id params = do
    p ← query (change_product id params)
    announce product_updated_routing_key p

  unfoldable pub update_product : Uuid → ProductParams → Action Tables Error Product
  update_product id params = transaction (update_product_tx id params)

  unfoldable pub delete_product_tx : Uuid → Action Tables Error (Unit {0})
  delete_product_tx id = do
    query (remove_product id)
    add_outbox_event id product_deleted_routing_key (deleted_payload id)

  unfoldable pub delete_product : Uuid → Action Tables Error (Unit {0})
  delete_product id = transaction (delete_product_tx id)
