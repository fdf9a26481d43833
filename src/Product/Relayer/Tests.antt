-- ===== src/Product/Relayer/Tests.antt =====
-- An event of a product that waits in the outbox.
use microservices.Prelude.{ℕ, zero, suc, ◌≡◌, refl, String, true, false, none, List, [], ◌∷◌}
use microservices.Prelude.Int.{pos}
use microservices.Grpc.{live}
use microservices.Samples.{platform, platform-text, server as pg}
use microservices.Effect.{World, ok, query}
use microservices.Product.{OutboxEvent, EventBody, product_event, unpublished}
use microservices.Relay.{relay_event, relay_events, process_events}
use microservices.Rabbit.{
  Network, connected, Called, answered, fails, Manager, alive, connect, reconnect, try_reconnect,
  retry_with_reconnect, call, is_connection_error, declare_exchange, publish_message,
}
use microservices.Rabbit.Client.{publish as rabbit_publish, publish_once, delegating_publish}
use microservices.Product.Relayer.{
  System, stamped, poll, publish, get_unpublished, update_status, get_unpublished_outbox_events,
  update_outbox_event_status,
}
use microservices.Product.Relayer.Marks.{Marks, poll-Marks}

opened : Unit {0}
unfolding query relay_event relay_events process_events connect reconnect try_reconnect
    retry_with_reconnect call is_connection_error rabbit_publish publish_once delegating_publish
    poll publish get_unpublished update_status get_unpublished_outbox_events
    update_outbox_event_status
opened = tt

-- The second call fails and closes the connection.
abbrev second : ℕ → Called
second (suc zero) = fails true false false "EOF"
second _ = answered true

abbrev quiet : ℕ → Called
quiet _ = answered false

abbrev network : (ℕ → Called) → Network
network calls = record {
  dial = λ n. connected;
  wait = λ n. live;
  call = calls;
  context_text = λ c. "context canceled";
}

abbrev created : OutboxEvent
created = record {
  id = 4;
  aggregate_id = 7;
  event_name = "products.events:product.created";
  payload = product_event (record {
    id = "7";
    category_id = "";
    name = "mug";
    description = "";
    price = "5";
    stock_quantity = pos 3;
  });
  status = unpublished;
  created_at = 2;
  published_at = none;
}

abbrev fresh : Manager
fresh = record {
  connection = alive;
  channel = true;
  dials = 1;
  waits = [];
  waited = 0;
  calls = 0;
  outgoing = [];
  broker = [];
}

abbrev world : World System
world = record {
  tables = record {
    tables = record {
      categories = [];
      products = [];
      processed = [];
      outbox = created ∷ [];
      pg = pg;
    };
    publisher = record { fanout_publisher = fresh; client = fresh };
  };
  faults = [];
}

abbrev encode : EventBody → String
encode body = "{}"

publishes :
    ((poll platform (network quiet) (network second) encode 10 world).1.tables.tables.outbox
      ≡ stamped 5 created ∷ [])
    × ((poll platform
          (network quiet)
          (network second)
          encode
          10
          world).1.tables.publisher.client.broker
        ≡ declare_exchange "products.events" "topic"
          ∷ declare_exchange "products.events" "topic"
          ∷ publish_message "products.events" "product.created" "{}"
          ∷ [])
unfolding opened
publishes = (refl, refl)

-- A broker that keeps no message: the event is marked as published all the same.
loses :
    ((poll platform (network quiet) (network quiet) encode 10 world).1.tables.tables.outbox
      ≡ stamped 5 created ∷ [])
    × ((poll platform
          (network quiet)
          (network quiet)
          encode
          10
          world).1.tables.publisher.client.broker
        ≡ declare_exchange "products.events" "topic" ∷ [])
unfolding opened
loses = (refl, refl)

poll-Marks_example :
    (rows : List OutboxEvent) × (((get_unpublished_outbox_events 10 world.tables.tables).0
        ≡ ok rows)
      × Marks encode rows
          (poll platform (network quiet) (network second) encode 10 world).1.tables.publisher
          world.tables.tables.outbox
          (poll platform (network quiet) (network second) encode 10 world).1.tables.tables.outbox)
poll-Marks_example =
    poll-Marks encode platform (network quiet) (network second) platform-text 10 world
