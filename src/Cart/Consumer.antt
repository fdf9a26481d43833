-- ===== src/Cart/Consumer.antt =====
-- cart-service/internal/events/order_created_consumer.go, and the transaction of
-- internal/repository/postgresql_order_created_consumer_repository.go.
use microservices.Prelude.{String, Bool, true, false, not, Option, none, some}
use microservices.Grpc.{Platform, Uuid}
use microservices.Effect.{
  Result, ok, err, Error, no_rows, invalid, failed, World, Action, ◌>>=◌, ◌>>◌, require, guard,
  query, transaction,
}
use microservices.Events.{OrderCreatedEvent, Delivery, ack, nack_requeue, nack_drop}
use microservices.Cart.{
  Tables, ProcessedEvent, delete_cart_by_user_id, get_processed_event, create_processed_event,
}

abbrev pub exchange_name : String
exchange_name = "order_created_exchange"

-- `_ = qtx.DeleteCartByUserID(...)`: the error is dropped, but PostgreSQL refuses every further
-- statement of a transaction in which one has failed. The answer says whether that is so.
abbrev pub ignored : Result Error (Unit {0}) × World Tables → Result Error Bool × World Tables
ignored (ok u, w) = (ok false, w)
ignored (err e, w) = (ok true, w)

abbrev pub delete_ignoring : Uuid → Action Tables Error Bool
delete_ignoring user w = ignored (query (delete_cart_by_user_id user) w)

module _ (pf : Platform) where
  unfoldable pub delete_cart_and_create_processed_event_tx :
      OrderCreatedEvent → String → Action Tables Error (Unit {0})
  delete_cart_and_create_processed_event_tx event name = do
    user ← require (pf.scan_uuid event.user_id) invalid
    aborted ← delete_ignoring user
    order ← require (pf.scan_uuid event.order_id) invalid
    guard (not aborted) failed
    query (create_processed_event order name)

  unfoldable pub delete_cart_and_create_processed_event :
      OrderCreatedEvent → String → Action Tables Error (Unit {0})
  delete_cart_and_create_processed_event event name =
      transaction (delete_cart_and_create_processed_event_tx event name)

  abbrev pub settle_deletion : Result Error (Unit {0}) × World Tables → Delivery × World Tables
  settle_deletion (ok u, w) = (ack, w)
  settle_deletion (err e, w) = (nack_requeue, w)

  abbrev pub unless_processed :
      OrderCreatedEvent → Result Error ProcessedEvent × World Tables → Delivery × World Tables
  unless_processed event (ok row, w) = (ack, w)
  unless_processed event (err no_rows, w) =
      settle_deletion (delete_cart_and_create_processed_event event exchange_name w)
  unless_processed event (err e, w) = (nack_requeue, w)

  abbrev pub with_aggregate :
      OrderCreatedEvent → Option Uuid → World Tables → Delivery × World Tables
  with_aggregate event none w = (nack_requeue, w)
  with_aggregate event (some order) w =
      unless_processed event (query (get_processed_event order exchange_name) w)

  unfoldable pub handle_order_created_event :
      Option OrderCreatedEvent → World Tables → Delivery × World Tables
  handle_order_created_event none w = (nack_drop, w)
  handle_order_created_event (some event) w = with_aggregate event (pf.scan_uuid event.order_id) w
