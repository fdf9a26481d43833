-- ===== src/Order/Repository.antt =====
-- order-service/internal/repository/postgsql_order_repository.go
pub mod Atomic
pub mod Cancel
use microservices.Prelude.{ℕ, String, Option, none, some, List, map}
use microservices.Prelude.Int.{ℤ}
use microservices.Grpc.{Platform, Float64}
use microservices.Effect.{
  Error, invalid, failed, Action, ◌>>=◌, ◌>>◌, pure, require, query, transaction,
}
use microservices.Events.{OrderItem, OrderCreatedEvent}
use microservices.Order.{
  Order, Tables, create_order as insert_order, create_outbox_event, get_order_status_by_name,
  update_order_status, cancel_outbox_event_status_by_aggregate_id,
}

-- A message cartv1.CartProduct.
pub record CartProduct : Type 0 where
  pub product_id : String
  pub name : String
  pub description : String
  pub price : Float64
  pub quantity : ℤ

-- A message orderv1.Order.
pub record GrpcOrder : Type 0 where
  pub id : String
  pub user_id : String
  pub total_amount : Float64
  pub status : String
  pub created_at : ℕ

abbrev pub order_created_event_name : String
order_created_event_name = "order_created_exchange"

abbrev pub to_order_item : CartProduct → OrderItem
to_order_item p = record { product_id = p.product_id; quantity = p.quantity }

unfoldable pub generate_order_created_event_payload :
    String → String → String → List CartProduct → OrderCreatedEvent
generate_order_created_event_payload order user email products = record {
  order_id = order;
  user_id = user;
  user_email = email;
  products = map to_order_item products;
}

module _ (pf : Platform) where
  -- The amount of an invalid float64 value is the zero value, whose bits are all 0.
  abbrev pub reply_with : Order → String → Option Float64 → GrpcOrder
  reply_with o status amount = record {
    id = pf.uuid_string o.id;
    user_id = pf.uuid_string o.user_id;
    total_amount = elim amount [ none ↦ 0 | some x ↦ x ];
    status = status;
    created_at = o.created_at;
  }

  unfoldable pub map_repository_to_grpc : Order → String → Option GrpcOrder
  map_repository_to_grpc o status = elim (pf.float64_value o.total_amount) [
    | none ↦ none
    | some amount ↦ some (reply_with o status amount)
  ]

  unfoldable pub create_order_tx :
      String → String → Float64 → List CartProduct → Action Tables Error GrpcOrder
  create_order_tx user_id email total products = do
    user ← require (pf.scan_uuid user_id) invalid
    amount ← require (pf.scan_money total) invalid
    order ← query (insert_order user amount)
    query (
        create_outbox_event order.id order_created_event_name (
          generate_order_created_event_payload (pf.uuid_string order.id)
            (pf.uuid_string order.user_id) email products))
    status ← query (get_order_status_by_name "CREATED")
    require (map_repository_to_grpc order status.name) failed

  unfoldable pub create_order :
      String → String → Float64 → List CartProduct → Action Tables Error GrpcOrder
  create_order user_id email total products =
      transaction (create_order_tx user_id email total products)

  unfoldable pub cancel_order_tx : String → Action Tables Error (Unit {0})
  cancel_order_tx order_id = do
    order ← require (pf.scan_uuid order_id) invalid
    canceled ← query (get_order_status_by_name "CANCELED")
    query (update_order_status order canceled.id)
    query (cancel_outbox_event_status_by_aggregate_id order)

  unfoldable pub cancel_order : String → Action Tables Error (Unit {0})
  cancel_order order_id = transaction (cancel_order_tx order_id)
