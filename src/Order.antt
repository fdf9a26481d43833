-- ===== src/Order.antt =====
-- order-service: the tables of db/migrations with the queries of repository/order.sql.go and
-- repository/outbox_event.sql.go.
pub mod Repository
pub mod Server
pub mod Consumer
pub mod Relayer
mod Tests
use microservices.Prelude.{
  ℕ, String, Bool, true, false, ◌||◌, not, Option, none, some, List, [], ◌∷◌, ◌++◌, if◌then◌else◌,
  ◌==◌, leb, str_eq,
}
use microservices.Prelude.Rows.{find, any, update, select, take}
use microservices.Grpc.{Uuid, Numeric}
use microservices.Effect.{Result, ok, err, Error, no_rows, failed, one_row}
use microservices.Postgres.{Pg, uuid_generate_v4, drawn_once, is_positive_money}
use microservices.Events.{OrderCreatedEvent}

pub data OutboxEventStatus : Type 0 where
  unpublished published cancelled : OutboxEventStatus

-- A row of `orders`; its status is the id of a row of `order_statuses`.
pub record Order : Type 0 where
  pub id : Uuid
  pub user_id : Uuid
  pub total_amount : Numeric
  pub status : Uuid
  pub created_at : ℕ

pub record OrderStatus : Type 0 where
  pub id : Uuid
  pub name : String

pub record OutboxEvent : Type 0 where
  pub id : Uuid
  pub aggregate_id : Uuid
  pub event_name : String
  pub payload : OrderCreatedEvent
  pub status : OutboxEventStatus
  pub created_at : ℕ
  pub published_at : Option ℕ

pub record Tables : Type 0 where
  pub orders : List Order
  pub statuses : List OrderStatus
  pub outbox : List OutboxEvent
  pub pg : Pg

abbrev pub has_name : String → OrderStatus → Bool
has_name name s = str_eq s.name name

abbrev pub is_status : Uuid → OrderStatus → Bool
is_status id s = s.id == id

abbrev pub has_id : Uuid → Order → Bool
has_id id o = o.id == id

abbrev pub is_event : Uuid → OutboxEvent → Bool
is_event id e = e.id == id

abbrev pub has_aggregate : Uuid → OutboxEvent → Bool
has_aggregate id e = e.aggregate_id == id

unfoldable pub status_named : String → List OrderStatus → Option OrderStatus
status_named name statuses = find (has_name name) statuses

abbrev pub new_order : Uuid → Numeric → Uuid → Pg → Order
new_order user amount status pg = record {
  id = uuid_generate_v4 pg;
  user_id = user;
  total_amount = amount;
  status = status;
  created_at = pg.now;
}

-- INSERT INTO orders, where the trigger fills in the status CREATED.
unfoldable pub create_order : Uuid → Numeric → Tables → Result Error Order × Tables
create_order user amount t = elim (status_named "CREATED" t.statuses) [
  | none ↦ (err failed, t)
  | some s ↦
      if any (has_id (uuid_generate_v4 t.pg)) t.orders || not (is_positive_money amount)
      then (err failed, t)
      else (
        ok (new_order user amount s.id t.pg),
        record t {
          orders = t.orders ++ new_order user amount s.id t.pg ∷ [];
          pg = drawn_once t.pg;
        },
      )
]

unfoldable pub get_order_by_id : Uuid → Tables → Result Error Order × Tables
get_order_by_id id t = (one_row (find (has_id id) t.orders), t)

unfoldable pub get_order_status_by_name : String → Tables → Result Error OrderStatus × Tables
get_order_status_by_name name t = (one_row (status_named name t.statuses), t)

abbrev pub with_status : Uuid → Order → Order
with_status status o = record o { status = status }

-- UPDATE orders SET status WHERE id, returning the row; the status that a row gets must be one of
-- order_statuses.
unfoldable pub update_order_status : Uuid → Uuid → Tables → Result Error Order × Tables
update_order_status id status t =
    if any (has_id id) t.orders
    then if any (is_status status) t.statuses
      then (
        one_row (find (has_id id) (update (has_id id) (with_status status) t.orders)),
        record t { orders = update (has_id id) (with_status status) t.orders },
      )
      else (err failed, t)
    else (err no_rows, t)

abbrev pub new_event : Uuid → String → OrderCreatedEvent → Pg → OutboxEvent
new_event aggregate name payload pg = record {
  id = uuid_generate_v4 pg;
  aggregate_id = aggregate;
  event_name = name;
  payload = payload;
  status = unpublished;
  created_at = pg.now;
  published_at = none;
}

-- INSERT INTO outbox_events, where `aggregate_id` is unique.
unfoldable pub create_outbox_event :
    Uuid → String → OrderCreatedEvent → Tables → Result Error (Unit {0}) × Tables
create_outbox_event aggregate name payload t =
    if any (is_event (uuid_generate_v4 t.pg)) t.outbox || any (has_aggregate aggregate) t.outbox
    then (err failed, t)
    else (
      ok tt,
      record t {
        outbox = t.outbox ++ new_event aggregate name payload t.pg ∷ [];
        pg = drawn_once t.pg;
      },
    )

abbrev pub cancelled_event : OutboxEvent → OutboxEvent
cancelled_event e = record e { status = cancelled }

unfoldable pub cancel_outbox_event_status_by_aggregate_id :
    Uuid → Tables → Result Error (Unit {0}) × Tables
cancel_outbox_event_status_by_aggregate_id id t =
    (ok tt, record t { outbox = update (has_aggregate id) cancelled_event t.outbox })

abbrev pub is_unpublished : OutboxEvent → Bool
is_unpublished e = elim e.status [ unpublished ↦ true | _ ↦ false ]

-- ORDER BY created_at ASC: rows of the same time keep the order of the table.
unfoldable pub insert_by_time : OutboxEvent → List OutboxEvent → List OutboxEvent
insert_by_time e [] = e ∷ []
insert_by_time e (x ∷ xs) =
    let rest = insert_by_time e xs in if leb e.created_at x.created_at then e ∷ x ∷ xs else x ∷ rest

unfoldable pub sort_by_time : List OutboxEvent → List OutboxEvent
unfolding insert_by_time
sort_by_time [] = []
sort_by_time (x ∷ xs) = insert_by_time x (sort_by_time xs)

unfoldable pub get_unpublished_outbox_events : ℕ → Tables → Result Error (List OutboxEvent) × Tables
get_unpublished_outbox_events limit t =
    (ok (take limit (sort_by_time (select is_unpublished t.outbox))), t)

abbrev pub stamped : OutboxEventStatus → ℕ → OutboxEvent → OutboxEvent
stamped status now e = record e { status = status; published_at = some now }

unfoldable pub update_outbox_event_status :
    Uuid → OutboxEventStatus → Tables → Result Error (Unit {0}) × Tables
update_outbox_event_status id status t =
    (ok tt, record t { outbox = update (is_event id) (stamped status t.pg.now) t.outbox })
