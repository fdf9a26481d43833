-- ===== src/Product/Tests.antt =====
-- Concrete deliveries to the product service.
use microservices.Prelude.{ℕ, ◌≡◌, ◌≢◌, refl, ◌⊎◌, Option, none, some, [], ◌∷◌}
use microservices.Prelude.Int.{pos}
use microservices.Grpc.{hundredths}
use microservices.Samples.{platform, server as pg, letters}
use microservices.Effect.{World, query, transaction}
use microservices.Events.{OrderCreatedEvent, ack, nack_requeue, nack_drop}
use microservices.Product.{
  Product, Tables, Server, OutboxEvent, json_to_recordset, joins, line_for, update_rows,
  rows_affected, update_stock_batch as update_products, get_processed_event, create_processed_event,
  create_outbox_event,
}
use microservices.Product.Stock.{Taken, Rowwise}
use microservices.Product.Consumer.{
  update_stock_batch_tx, update_stock_batch, handle_order_created_event,
  stock_update_failed_event_name, failed_event,
}
use microservices.Product.Consumer.Batch.{Reports}
use microservices.Product.Consumer.Laws.{Handled, handle_order_created_event-Handled}
use microservices.Product.Consumer.Stocktaking.{
  handle_order_created_event-Taken, handle_order_created_event-report,
  handle_order_created_event_again,
}

opened : Unit {0}
unfolding json_to_recordset joins line_for update_rows rows_affected update_products
    get_processed_event create_processed_event create_outbox_event update_stock_batch_tx
    update_stock_batch handle_order_created_event query transaction
opened = tt

abbrev server : Server
server = record { cast_uuid = platform.scan_uuid; choice = λ id. 0 }

abbrev mug : ℕ → Option ℕ → Product
mug stock updated_at = record {
  id = 7;
  category_id = none;
  name = "mug";
  description = none;
  price = hundredths (pos 500);
  stock_quantity = stock;
  created_at = 1;
  updated_at = updated_at;
}

abbrev world : World Tables
world = record {
  tables = record {
    categories = [];
    products = mug 3 none ∷ [];
    processed = [];
    outbox = [];
    pg = pg;
  };
  faults = [];
}

abbrev ordered : ℕ → OrderCreatedEvent
ordered quantity = record {
  order_id = letters 4;
  user_id = "uu";
  user_email = "a@b.c";
  products = record { product_id = letters 7; quantity = pos quantity } ∷ [];
}

takes_stock :
    ((handle_order_created_event platform server (some (ordered 2)) world).0 ≡ ack)
    × ((handle_order_created_event platform server (some (ordered 2)) world).1.tables.products
        ≡ mug 1 (some 5) ∷ [])
unfolding opened
takes_stock = (refl, refl)

lacks_stock : (handle_order_created_event platform server (some (ordered 4)) world).0 ≡ nack_drop
unfolding opened
lacks_stock = refl

handle_order_created_event-Handled_example :
    Handled platform server 4
      (ordered 2)
      world
      (handle_order_created_event platform server (some (ordered 2)) world)
handle_order_created_event-Handled_example =
    handle_order_created_event-Handled platform server (ordered 2) 4 world refl

handle_order_created_event-Taken_example :
    Rowwise
      (Taken server (ordered 2).products)
      world.tables.products
      (handle_order_created_event platform server (some (ordered 2)) world).1.tables.products
handle_order_created_event-Taken_example =
    handle_order_created_event-Taken platform server (ordered 2) 4 world refl

handle_order_created_event-report_example :
    (((handle_order_created_event platform server (some (ordered 4)) world).0 ≢ nack_drop)
      × ((handle_order_created_event platform server (some (ordered 4)) world).1.tables.outbox
          ≡ []))
    ⊎ (((handle_order_created_event platform server (some (ordered 4)) world).0 ≡ nack_drop)
        × ((e : OutboxEvent) × Reports 4 stock_update_failed_event_name (failed_event (ordered 4)) e
            × ((handle_order_created_event platform server (some (ordered 4)) world).1.tables.outbox
                ≡ e ∷ [])))
handle_order_created_event-report_example =
    handle_order_created_event-report platform server (ordered 4) 4 world refl

abbrev redelivered : World Tables
redelivered = record {
  tables = (handle_order_created_event platform server (some (ordered 2)) world).1.tables;
  faults = [];
}

committed : (handle_order_created_event platform server (some (ordered 2)) world).0 ≢ nack_requeue
unfolding opened
committed e = cc

handle_order_created_event_again_example :
    (handle_order_created_event platform server (some (ordered 2)) redelivered).1.tables
    ≡ redelivered.tables
handle_order_created_event_again_example =
    handle_order_created_event_again platform server (ordered 2) (ordered 2) 4 world redelivered
      refl refl committed refl
