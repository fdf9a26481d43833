-- ===== src/Product/Consumer.antt =====
-- product-service/internal/events/consumers/order_created_consumer.go, and UpdateStockBatch of
-- internal/repository/postgresql_order_created_consumer_repository.go. The cache that is invalidated
-- after a success is not part of the tables.
pub mod Batch
pub mod Laws
pub mod Stocktaking
use microservices.Prelude.{
  ℕ, String, Bool, true, ◌||◌, not, if◌then◌else◌, ◌==◌, Option, none, some,
}
use microservices.Prelude.Rows.{length}
use microservices.Grpc.{Platform, Uuid}
use microservices.Effect.{
  Result, ok, err, Error, no_rows, invalid, World, Action, ◌>>=◌, ◌>>◌, pure, require, query,
  transaction,
}
use microservices.Events.{
  OrderCreatedEvent, StockUpdateFailedEvent, Delivery, ack, nack_requeue, nack_drop,
}
use microservices.Product.{
  stock_failure, Tables, Server, ProcessedEvent, update_stock_batch as update_products,
  get_processed_event, create_processed_event, create_outbox_event,
}

-- The name under which the repository records an event as processed.
abbrev pub event_name : String
event_name = "order_created_exchange"

-- The exchange's name, by which the consumer looks for a processed event.
abbrev pub exchange_name : String
exchange_name = "order_created_exchange"

abbrev pub stock_update_failed_event_name : String
stock_update_failed_event_name = "stock_update_failed_exchange"

-- The outbox event, where the number of rows is not the number of products.
abbrev pub report_failure :
    Bool → ℕ → ℕ → Uuid → String → StockUpdateFailedEvent → Action Tables Error ℕ
report_failure on_failure rows expected order name payload =
    if (rows == expected) || not on_failure
    then pure rows
    else (do query (create_outbox_event order name (stock_failure payload)); pure rows)

abbrev pub failed_event : OrderCreatedEvent → StockUpdateFailedEvent
failed_event event = record { order_id = event.order_id; products = event.products }

-- validateStockUpdate, and the acknowledgement after it.
abbrev pub validate_stock_update :
    OrderCreatedEvent → Result Error ℕ × World Tables → Delivery × World Tables
validate_stock_update event (err e, w) = (nack_requeue, w)
validate_stock_update event (ok rows, w) =
    (if rows == length event.products then ack else nack_drop, w)

module _ (pf : Platform) (server : Server) where
  unfoldable pub update_stock_batch_tx :
      OrderCreatedEvent → Bool → String → StockUpdateFailedEvent → Action Tables Error ℕ
  update_stock_batch_tx event on_failure name payload = do
    rows ← query (update_products server event.products)
    order ← require (pf.scan_uuid event.order_id) invalid
    query (create_processed_event order event_name)
    report_failure on_failure rows (length event.products) order name payload

  unfoldable pub update_stock_batch :
      OrderCreatedEvent → Bool → String → StockUpdateFailedEvent → Action Tables Error ℕ
  update_stock_batch event on_failure name payload =
      transaction (update_stock_batch_tx event on_failure name payload)

  -- shouldSkipProcessing, over the answer about the processed event.
  abbrev pub unless_processed :
      OrderCreatedEvent → Result Error ProcessedEvent × World Tables → Delivery × World Tables
  unless_processed event (ok row, w) = (ack, w)
  unless_processed event (err no_rows, w) =
      validate_stock_update event
        (update_stock_batch event true stock_update_failed_event_name (failed_event event) w)
  unless_processed event (err e, w) = (nack_requeue, w)

  -- isEventProcessed: an order id that does not parse is an error, and the message is requeued.
  abbrev pub with_aggregate :
      OrderCreatedEvent → Option Uuid → World Tables → Delivery × World Tables
  with_aggregate event none w = (nack_requeue, w)
  with_aggregate event (some order) w =
      unless_processed event (query (get_processed_event order exchange_name) w)

  unfoldable pub handle_order_created_event :
      Option OrderCreatedEvent → World Tables → Delivery × World Tables
  handle_order_created_event none w = (nack_drop, w)
  handle_order_created_event (some event) w = with_aggregate event (pf.scan_uuid event.order_id) w
