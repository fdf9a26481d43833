-- ===== src/Order/Tests.antt =====
-- Concrete runs of the order service.
use microservices.Prelude.{
  String, ◌≡◌, refl, ap, ◌⊎◌, inl, inr, true, false, none, some, List, [], ◌∷◌, map, ◌≤◌, sym, ◌∙◌,
}
use microservices.Prelude.Int.{pos}
use microservices.Prelude.Rows.{length}
use microservices.Grpc.{Code, hundredths, live, failed_precondition}
use microservices.Samples.{platform, platform-text, letters, server}
use microservices.Effect.{World, Result, ok, err, Error, query, transaction, check_live}
use microservices.Events.{OrderCreatedEvent, StockUpdateFailedEvent, ack, nack_requeue, nack_drop}
use microservices.Order.{
  Order, OutboxEvent, Tables, unpublished, published, status_named, create_order,
  create_outbox_event, get_order_by_id, get_order_status_by_name, update_order_status,
  cancel_outbox_event_status_by_aggregate_id, get_unpublished_outbox_events,
  update_outbox_event_status, sort_by_time, insert_by_time,
}
use microservices.Order.Repository
use microservices.Order.Repository.{
  CartProduct, GrpcOrder, create_order_tx, cancel_order, cancel_order_tx, map_repository_to_grpc,
  generate_order_created_event_payload,
}
use microservices.Order.Repository.Atomic.{Stored, create_order_atomic}
use microservices.Order.Repository.Cancel.{Fails, migrated_statuses, cancel_order-migrated}
use microservices.Order.Server.{
  Clients, GetCartResponse, get_cart, get_user_email, process_payment, create_order_handler,
  payment_error,
}
use microservices.Order.Server.Saga.{
  Placed, payment_of, create_order_handler-ok, create_order_handler-err,
}
use microservices.Order.Consumer
use microservices.Order.Consumer.{handle_stock_update_failed_event}
use microservices.Order.Consumer.Laws.{
  IsCancelled, FoundCancelled, handle_stock_update_failed_event-ack,
  handle_stock_update_failed_event_again,
}
use microservices.Relay.{relay_event, relay_events, process_events}
use microservices.Order.Relayer.{System, publish, get_unpublished, update_status, poll}
use microservices.Order.Relayer.Rows.{IsRelayed, batch, message, In}
use microservices.Order.Relayer.Delivery.{poll-IsRelayed}
use microservices.Order.Relayer.Sequence.{IsSorted, poll-outgoing}

opened : Unit {0}
unfolding create_order_handler get_cart get_user_email process_payment Repository.create_order
    create_order_tx cancel_order cancel_order_tx map_repository_to_grpc
    generate_order_created_event_payload status_named create_order create_outbox_event
    get_order_by_id get_order_status_by_name update_order_status
    cancel_outbox_event_status_by_aggregate_id get_unpublished_outbox_events
    update_outbox_event_status sort_by_time insert_by_time handle_stock_update_failed_event
    Consumer.cancel_order relay_event relay_events process_events publish get_unpublished
    update_status poll query transaction check_live
opened = tt

abbrev tables : Tables
tables = record { orders = []; statuses = migrated_statuses 21 22 23; outbox = []; pg = server }

abbrev world : World Tables
world = record { tables = tables; faults = [] }

abbrev products : List CartProduct
products =
    record { product_id = "uuuuuuu"; name = "mug"; description = ""; price = 500; quantity = pos 2 }
    ∷ []

abbrev cart : GetCartResponse
cart = record { id = "u"; user_id = "uu"; products = products; total_price = 1000 }

abbrev clients_with : Result Code String → Clients
clients_with payment = record {
  get_cart = λ user. ok cart;
  get_user_email = λ user. ok "a@b.c";
  process_payment = λ request. payment;
}

abbrev clients : Clients
clients = clients_with (ok "pay-1")

abbrev broke : Clients
broke = clients_with (err failed_precondition)

-- The row of the first order, and its event.
abbrev order : Order
order = record {
  id = 100;
  user_id = 2;
  total_amount = hundredths (pos 1000);
  status = 21;
  created_at = 5;
}

abbrev body : OrderCreatedEvent
body = record {
  order_id = letters 100;
  user_id = "uu";
  user_email = "a@b.c";
  products = record { product_id = "uuuuuuu"; quantity = pos 2 } ∷ [];
}

abbrev event : OutboxEvent
event = record {
  id = 101;
  aggregate_id = 100;
  event_name = "order_created_exchange";
  payload = body;
  status = unpublished;
  created_at = 5;
  published_at = none;
}

abbrev reply : GrpcOrder
reply = record {
  id = letters 100;
  user_id = "uu";
  total_amount = 1000;
  status = "CREATED";
  created_at = 5;
}

abbrev after : Tables
after = record tables { orders = order ∷ []; outbox = event ∷ []; pg = record server { drawn = 2 } }

orders :
    create_order_handler platform clients live "uu" world
    ≡ (ok reply, record { tables = after; faults = [] })
unfolding opened
orders = refl

-- The payment is refused: the order stays CREATED, and its event stays unpublished.
payment_refused :
    create_order_handler platform broke live "uu" world
    ≡ (err failed_precondition, record { tables = after; faults = [] })
unfolding opened
payment_refused = refl

create_order_atomic_example :
    ((g : GrpcOrder) × ((Repository.create_order platform "uu" "a@b.c" 1000 products world).0
        ≡ ok g)
      × Stored platform "uu" "a@b.c" 1000 products tables
          (Repository.create_order platform "uu" "a@b.c" 1000 products world).1.tables
          g)
    ⊎ ((e : Error) × ((Repository.create_order platform "uu" "a@b.c" 1000 products world).0 ≡ err e)
        × ((Repository.create_order platform "uu" "a@b.c" 1000 products world).1.tables ≡ tables))
create_order_atomic_example = create_order_atomic platform "uu" "a@b.c" 1000 products world

abbrev stored_world : World Tables
stored_world = record { tables = after; faults = [] }

cancel_order-migrated_example : Fails (cancel_order platform (letters 100) stored_world) after
cancel_order-migrated_example =
    cancel_order-migrated platform (letters 100) stored_world 21 22 23 refl

create_order_handler-ok_example :
    (p : Placed platform clients "uu" world
      (create_order_handler platform clients live "uu" world).1
      reply)
    × ((payment : String) × (payment_of platform clients "uu" p.cart reply ≡ ok payment))
create_order_handler-ok_example =
    create_order_handler-ok platform clients live "uu" world reply (ap (λ r. r.0) orders)

create_order_handler-err_example :
    ((create_order_handler platform broke live "uu" world).1.tables ≡ tables)
    ⊎ ((w1 : World Tables) × (g : GrpcOrder) × (p : Placed platform broke "uu" world w1 g)
        × (c : Code) × (payment_of platform broke "uu" p.cart g ≡ err c)
        × (failed_precondition ≡ payment_error c)
        × ((create_order_handler platform broke live "uu" world).1.tables ≡ w1.tables))
create_order_handler-err_example =
    create_order_handler-err platform broke live "uu" world failed_precondition 21 22 23 refl
      (ap (λ r. r.0) payment_refused)

abbrev stock_failed : StockUpdateFailedEvent
stock_failed = record { order_id = letters 100; products = body.products }

cancels_on_stock_failure :
    (handle_stock_update_failed_event platform 23 (some stock_failed) stored_world).0 ≡ ack
unfolding opened
cancels_on_stock_failure = refl

handle_branches :
    ((handle_stock_update_failed_event platform 23 none stored_world).0 ≡ nack_drop)
    × ((handle_stock_update_failed_event platform 23
          (some stock_failed)
          (record { tables = after; faults = false ∷ true ∷ [] })).0
        ≡ nack_requeue)
unfolding opened
handle_branches = (refl, refl)

handle_stock_update_failed_event-ack_example :
    (((handle_stock_update_failed_event platform 23 (some stock_failed) stored_world).0 ≡ ack)
        × IsCancelled 23 100
            (handle_stock_update_failed_event platform 23 (some stock_failed) stored_world).1.tables
      ⊎ ((handle_stock_update_failed_event platform 23 (some stock_failed) stored_world).0
          ≡ nack_requeue)
        × ((handle_stock_update_failed_event platform 23 (some stock_failed) stored_world).1.tables
            ≡ after))
    × ((handle_stock_update_failed_event platform 23
          (some stock_failed)
          stored_world).1.tables.outbox
        ≡ after.outbox)
handle_stock_update_failed_event-ack_example =
    handle_stock_update_failed_event-ack platform 23 stock_failed 100 stored_world refl

abbrev redelivered : World Tables
redelivered = record {
  tables = (handle_stock_update_failed_event platform 23 (some stock_failed) stored_world).1.tables;
  faults = true ∷ [];
}

handle_stock_update_failed_event_again_example :
    FoundCancelled 23 100 stored_world.tables redelivered.tables
    × ((handle_stock_update_failed_event platform 23 (some stock_failed) redelivered).1.tables
        ≡ redelivered.tables)
handle_stock_update_failed_event_again_example =
    handle_stock_update_failed_event_again platform 23 stock_failed stock_failed 100 stored_world
      redelivered refl refl cancels_on_stock_failure refl

abbrev system : System
system = record { tables = after; outgoing = [] }

abbrev polled : World System
polled = record { tables = system; faults = [] }

poll_sends : (poll platform 10 polled).1.tables.outgoing ≡ ("order_created_exchange", body) ∷ []
unfolding opened
poll_sends = refl

only_event : (x : OutboxEvent) → In x (event ∷ []) → x ≡ event
only_event x (inl e) = e
only_event x (inr i) = elim i [ ]

unpublished-ne-published : unpublished ≡ published → ⊥
unpublished-ne-published e = cc

poll-IsRelayed_example : IsRelayed (poll platform 10 polled).1.tables
poll-IsRelayed_example =
    poll-IsRelayed platform 10 polled platform-text
      (λ x y i j e. only_event x i ∙ sym (only_event y j))
      ((λ e. absurd (unpublished-ne-published e)), tt)

poll-outgoing_example :
    ((poll platform 10 polled).1.tables.outgoing ≡ map message (batch 10 after))
    × IsSorted (batch 10 after)
    × (length (batch 10 after) ≤ 10)
poll-outgoing_example = poll-outgoing platform 10 system
