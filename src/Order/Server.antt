-- ===== src/Order/Server.antt =====
-- order-service/internal/grpc/order/create.go
pub mod Saga
use microservices.Prelude.{
  String, Bool, true, false, not, if◌then◌else◌, str_eq, Option, List, [], ◌∷◌,
}
use microservices.Grpc.{
  Platform, Float64, Code, not_found, failed_precondition, unavailable, deadline_exceeded,
  invalid_argument, internal, ContextState,
}
use microservices.Effect.{
  Result, ok, err, World, Error, Action, ◌>>=◌, ◌>>◌, pure, raise, guard, or_else, check_live,
  to_internal,
}
use microservices.Order.{Tables}
use microservices.Order.Repository.{CartProduct, GrpcOrder, create_order, cancel_order}

pub record GetCartResponse : Type 0 where
  pub id : String
  pub user_id : String
  pub products : List CartProduct
  pub total_price : Float64

pub record PaymentRequest : Type 0 where
  pub order_id : String
  pub user_id : String
  pub amount : Float64

-- The other services, as the order service sees them in one call: a reply or a status code.
pub record Clients : Type 0 where
  pub get_cart : String → Result Code GetCartResponse
  pub get_user_email : String → Result Code String
  pub process_payment : PaymentRequest → Result Code String

abbrev pub cart_error : Code → Code
cart_error not_found = failed_precondition
cart_error unavailable = unavailable
cart_error deadline_exceeded = unavailable
cart_error _ = internal

abbrev pub user_error : Code → Code
user_error not_found = failed_precondition
user_error unavailable = unavailable
user_error deadline_exceeded = unavailable
user_error _ = internal

abbrev pub payment_error : Code → Code
payment_error failed_precondition = failed_precondition
payment_error unavailable = unavailable
payment_error deadline_exceeded = unavailable
payment_error invalid_argument = invalid_argument
payment_error _ = internal

abbrev pub is_empty : {A : Type 0} → List A → Bool
is_empty [] = true
is_empty (x ∷ xs) = false

abbrev pub reply : {A : Type 0} → Result Code A → Action Tables Code A
reply r w = (r, w)

module _ (pf : Platform) (clients : Clients) where
  unfoldable pub get_cart : String → Action Tables Code GetCartResponse
  get_cart user_id = do
    cart ← or_else (reply (clients.get_cart user_id)) cart_error
    guard (not (is_empty cart.products)) failed_precondition
    guard (not (pf.le_zero cart.total_price)) failed_precondition
    pure cart

  unfoldable pub get_user_email : String → Action Tables Code String
  get_user_email user_id = or_else (reply (clients.get_user_email user_id)) user_error

  unfoldable pub process_payment : String → String → Float64 → Action Tables Code String
  process_payment order_id user_id amount =
      or_else
        (reply (
          clients.process_payment
            (record { order_id = order_id; user_id = user_id; amount = amount })))
        payment_error

  -- After a failed payment the order is cancelled; an error of that is only logged.
  abbrev pub compensate :
      GrpcOrder → Result Code String × World Tables → Result Code GrpcOrder × World Tables
  compensate order (ok payment, w) = (ok order, w)
  compensate order (err c, w) = (err c, (cancel_order pf order.id w).1)

  unfoldable pub create_order_handler : ContextState → String → Action Tables Code GrpcOrder
  create_order_handler ctx user_id = do
    check_live pf ctx
    guard (not (str_eq user_id "")) invalid_argument
    cart ← get_cart user_id
    email ← get_user_email user_id
    order ← or_else (create_order pf user_id email cart.total_price cart.products) to_internal
    λ w. compensate order (process_payment order.id user_id cart.total_price w)
