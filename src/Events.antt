-- ===== src/Events.antt =====
-- shared/events: the messages of the platform, and what a consumer does with a delivery. A JSON
-- body stands for the value that it encodes; a body that does not decode is `none`.
use microservices.Prelude.{String, List, text_append}
use microservices.Prelude.Int.{ℤ}

pub record OrderItem : Type 0 where
  pub product_id : String
  pub quantity : ℤ

pub record OrderCreatedEvent : Type 0 where
  pub order_id : String
  pub user_id : String
  pub user_email : String
  pub products : List OrderItem

pub record StockUpdateFailedEvent : Type 0 where
  pub order_id : String
  pub products : List OrderItem

abbrev pub product_exchange_name : String
product_exchange_name = "products.events"

abbrev pub product_created_routing_key : String
product_created_routing_key = "product.created"

abbrev pub product_updated_routing_key : String
product_updated_routing_key = "product.updated"

abbrev pub product_deleted_routing_key : String
product_deleted_routing_key = "product.deleted"

-- The name under which a product's event waits in the outbox: the exchange, a colon, the key.
abbrev pub product_event_name : String → String
product_event_name key = text_append product_exchange_name (text_append ":" key)

-- shared/events/product.go; the price is a decimal text.
pub record ProductEvent : Type 0 where
  pub id : String
  pub category_id : String
  pub name : String
  pub description : String
  pub price : String
  pub stock_quantity : ℤ

-- d.Ack(false), d.Nack(false, true) and d.Nack(false, false).
pub data Delivery : Type 0 where
  ack nack_requeue nack_drop : Delivery
