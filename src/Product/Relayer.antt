-- ===== src/Product/Relayer.antt =====
-- product-service/internal/repository/postgres/outbox_event_message_relayer_repository.go and
-- outbox_events.sql.go, with the worker run over them and over the publisher of the product service.
pub mod Publishing
pub mod Marks
mod Tests
use microservices.Prelude.{
  ℕ, String, Bool, true, false, Option, none, some, List, [], ◌∷◌, map, if◌then◌else◌, leb,
}
use microservices.Prelude.Rows.{select, update, take}
use microservices.Grpc.{Platform, Uuid}
use microservices.Effect.{
  Result, ok, err, Error, failed, invalid, World, Action, ◌>>=◌, pure, require, query,
}
use microservices.Product.{
  Tables, OutboxEvent, EventBody, OutboxEventStatus, unpublished, published, is_event,
}
use microservices.Product.Queries.{sort_rows}
use microservices.Relay.{Event, OutboxEventRepository, Publisher, process_events}
use microservices.Rabbit.{Network}
use microservices.Rabbit.Client.{DelegatingPublisher, delegating_publish}

-- The database of the service and its publisher.
pub record System : Type 0 where
  pub tables : Tables
  pub publisher : DelegatingPublisher

abbrev pub is_unpublished : OutboxEvent → Bool
is_unpublished e = elim e.status [ unpublished ↦ true | _ ↦ false ]

-- ORDER BY created_at ASC LIMIT
unfoldable pub get_unpublished_outbox_events : ℕ → Tables → Result Error (List OutboxEvent) × Tables
get_unpublished_outbox_events limit t = (
  ok (
      take limit
        (sort_rows (λ a b. leb a.created_at b.created_at) (select is_unpublished t.outbox))),
  t,
)

abbrev pub stamped : ℕ → OutboxEvent → OutboxEvent
stamped now e = record e { status = published; published_at = some now }

unfoldable pub update_outbox_event_status : Uuid → Tables → Result Error (Unit {0}) × Tables
update_outbox_event_status id t =
    (ok tt, record t { outbox = update (is_event id) (stamped t.pg.now) t.outbox })

abbrev pub on_tables :
    {A : Type 0} → (Tables → Result Error A × Tables) → System → Result Error A × System
on_tables q s = let (r, t) = q s.tables in (r, record s { tables = t })

abbrev pub as_error : Result String (Unit {0}) → Result Error (Unit {0})
as_error (ok u) = ok u
as_error (err e) = err failed

-- `encode` is the JSON of a payload; each connection of the publisher has its own network.
module _ (pf : Platform) (fanout_net client_net : Network) (encode : EventBody → String) where
  unfoldable pub publish : Publisher System EventBody
  publish name body w =
      let (r, p) = delegating_publish fanout_net client_net name (encode body) w.tables.publisher in
      (as_error r, record w { tables = record w.tables { publisher = p } })

  abbrev pub to_event : OutboxEvent → Event EventBody
  to_event e = record {
    id = pf.uuid_string e.id;
    aggregate_id = pf.uuid_string e.aggregate_id;
    event_name = e.event_name;
    payload = e.payload;
  }

  unfoldable pub get_unpublished : ℕ → Action System Error (List (Event EventBody))
  get_unpublished limit = do
    rows ← query (on_tables (get_unpublished_outbox_events limit))
    pure (map to_event rows)

  unfoldable pub update_status : String → Action System Error (Unit {0})
  update_status id = do
    uuid ← require (pf.scan_uuid id) invalid
    query (on_tables (update_outbox_event_status uuid))

  abbrev pub repository : OutboxEventRepository System EventBody
  repository = record {
    get_unpublished_outbox_events = get_unpublished;
    update_outbox_event_status = update_status;
  }

  unfoldable pub poll : ℕ → Action System Error (Unit {0})
  poll batch_size = process_events repository publish batch_size
