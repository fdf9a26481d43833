-- ===== src/Order/Relayer.antt =====
-- order-service/internal/repository/postgres/outbox_event_message_relayer_repository.go, and the
-- worker run over it. Whether the broker keeps a message is not known to the code, which does not ask
-- for confirms.
pub mod Rows
pub mod Delivery
pub mod Sequence
use microservices.Prelude.{ℕ, String, List, [], ◌∷◌, ◌++◌, map}
use microservices.Grpc.{Platform}
use microservices.Effect.{Result, ok, Error, invalid, Action, ◌>>=◌, pure, require, query}
use microservices.Events.{OrderCreatedEvent}
use microservices.Order.{
  Tables, OutboxEvent, published, get_unpublished_outbox_events, update_outbox_event_status,
}
use microservices.Relay.{Event, OutboxEventRepository, Publisher, process_events}

-- A message: the exchange's name and the body.
abbrev pub Message : Type 0
Message = String × OrderCreatedEvent

-- The database, and the messages that Publish handed to the connection without an error, in order.
pub record System : Type 0 where
  pub tables : Tables
  pub outgoing : List Message

-- A statement of the order service, in the system.
abbrev pub on_tables :
    {A : Type 0} → (Tables → Result Error A × Tables) → System → Result Error A × System
on_tables q s = let (r, t) = q s.tables in (r, record s { tables = t })

abbrev pub deliver : String → OrderCreatedEvent → System → Result Error (Unit {0}) × System
deliver name body s = (ok tt, record s { outgoing = s.outgoing ++ (name, body) ∷ [] })

-- RabbitMQ.Publish returns nil after PublishWithContext did, or the call fails; its retries are those
-- of Rabbit.Client.fanout_publish.
unfoldable pub publish : Publisher System OrderCreatedEvent
publish name body = query (deliver name body)

module _ (pf : Platform) where
  abbrev pub to_event : OutboxEvent → Event OrderCreatedEvent
  to_event e = record {
    id = pf.uuid_string e.id;
    aggregate_id = pf.uuid_string e.aggregate_id;
    event_name = e.event_name;
    payload = e.payload;
  }

  unfoldable pub get_unpublished : ℕ → Action System Error (List (Event OrderCreatedEvent))
  get_unpublished limit = do
    rows ← query (on_tables (get_unpublished_outbox_events limit))
    pure (map to_event rows)

  unfoldable pub update_status : String → Action System Error (Unit {0})
  update_status id = do
    uuid ← require (pf.scan_uuid id) invalid
    query (on_tables (update_outbox_event_status uuid published))

  abbrev pub repository : OutboxEventRepository System OrderCreatedEvent
  repository = record {
    get_unpublished_outbox_events = get_unpublished;
    update_outbox_event_status = update_status;
  }

  unfoldable pub poll : ℕ → Action System Error (Unit {0})
  poll batch_size = process_events repository publish batch_size
