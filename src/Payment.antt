-- ===== src/Payment.antt =====
-- payment-service: the tables of db/migrations with the queries of repository/payment.sql.go, and
-- the handlers of grpc/payment/process.go, get.go and mapper.go.
pub mod Laws
pub mod Charges
pub mod Safety
mod Tests
use microservices.Prelude.{
  ℕ, String, ◌≡◌, Bool, true, false, ◌||◌, not, Option, none, some, List, [], ◌∷◌, ◌++◌,
  if◌then◌else◌, ◌==◌, str_eq,
}
use microservices.Prelude.Rows.{find, any, update}
use microservices.Grpc.{
  Platform, Uuid, Float64, Numeric, Code, invalid_argument, not_found, internal, ContextState, live,
  ctx_canceled, ctx_deadline_exceeded, ctx_failed,
}
use microservices.Effect.{
  Result, ok, err, Error, no_rows, invalid, failed, World, Action, ◌>>=◌, ◌>>◌, pure, raise,
  require, or_else, query, guard, check_live, one_row, to_internal,
}
use microservices.Postgres.{Pg, uuid_generate_v4, drawn_once, is_positive_money}

-- A row of `payments`; its status is the id of a row of `payment_statuses`.
pub record Payment : Type 0 where
  pub id : Uuid
  pub order_id : Uuid
  pub user_id : Uuid
  pub amount : Numeric
  pub status : Uuid
  pub created_at : ℕ

pub record PaymentStatus : Type 0 where
  pub id : Uuid
  pub name : String

pub record Tables : Type 0 where
  pub payments : List Payment
  pub statuses : List PaymentStatus
  pub pg : Pg

abbrev pub has_name : String → PaymentStatus → Bool
has_name name s = str_eq s.name name

abbrev pub has_id : Uuid → Payment → Bool
has_id id p = p.id == id

abbrev pub has_order : Uuid → Payment → Bool
has_order order p = p.order_id == order

-- The sub-select of trigger_set_default_payment_status, and of GetPaymentStatusByName.
unfoldable pub status_named : String → List PaymentStatus → Option Uuid
status_named name statuses = elim (find (has_name name) statuses) [
  | none ↦ none
  | some s ↦ some s.id
]

abbrev pub new_row : Uuid → Uuid → Numeric → Uuid → Tables → Payment
new_row order user amount status t = record {
  id = uuid_generate_v4 t.pg;
  order_id = order;
  user_id = user;
  amount = amount;
  status = status;
  created_at = t.pg.now;
}

abbrev pub with_row : Payment → Tables → Tables
with_row row t = record t { payments = t.payments ++ row ∷ []; pg = drawn_once t.pg }

-- The constraints on a new row: its UUID is free, its order has no payment, its amount is in range.
unfoldable pub is_refused : Uuid → Numeric → Tables → Bool
is_refused order amount t =
    any (has_id (uuid_generate_v4 t.pg)) t.payments
    || any (has_order order) t.payments
    || not (is_positive_money amount)

-- INSERT INTO payments, where the trigger fills in the status PROCESSING.
unfoldable pub create_payment : Uuid → Uuid → Numeric → Tables → Result Error Payment × Tables
create_payment order user amount t = elim (status_named "PROCESSING" t.statuses) [
  | none ↦ (err failed, t)
  | some status ↦ if is_refused order amount t then (err failed, t) else (
    ok (new_row order user amount status t),
    with_row (new_row order user amount status t) t,
  )
]

unfoldable pub get_payment_by_id : Uuid → Tables → Result Error Payment × Tables
get_payment_by_id id t = (one_row (find (has_id id) t.payments), t)

unfoldable pub get_payment_status_by_name : String → Tables → Result Error Uuid × Tables
get_payment_status_by_name name t = (one_row (status_named name t.statuses), t)

abbrev pub with_status : Uuid → Payment → Payment
with_status status p = record p { status = status }

-- UPDATE payments SET status WHERE id, returning the row.
unfoldable pub update_payment_status : Uuid → Uuid → Tables → Result Error Payment × Tables
update_payment_status id status t =
    let rows = update (has_id id) (with_status status) t.payments in
    (one_row (find (has_id id) rows), record t { payments = rows })

-- A message paymentv1.Payment.
pub record GrpcPayment : Type 0 where
  pub id : String
  pub order_id : String
  pub user_id : String
  pub amount : Float64
  pub status : String
  pub created_at : ℕ

pub record ProcessPaymentRequest : Type 0 where
  pub order_id : String
  pub user_id : String
  pub amount : Float64

-- processPaymentReqValidationResult
pub record Validated : Type 0 where
  pub order_uuid : Uuid
  pub user_uuid : Uuid
  pub amount : Numeric

module _ (pf : Platform) where
  unfoldable pub map_repository_to_grpc : Payment → Option GrpcPayment
  map_repository_to_grpc p = elim (pf.float64_value p.amount) [
    | none ↦ none
    | some none ↦ none
    | some (some amount) ↦ some (record {
      id = pf.uuid_string p.id;
      order_id = pf.uuid_string p.order_id;
      user_id = pf.uuid_string p.user_id;
      amount = amount;
      status = pf.uuid_string p.status;
      created_at = p.created_at;
    })
  ]

  unfoldable pub validate_process_payment_request :
      ProcessPaymentRequest → Action Tables Code Validated
  validate_process_payment_request req = do
    order ← require (pf.scan_uuid req.order_id) invalid_argument
    user ← require (pf.scan_uuid req.user_id) invalid_argument
    amount ← require (pf.scan_money req.amount) invalid_argument
    guard (not (pf.le_zero req.amount)) invalid_argument
    pure (record { order_uuid = order; user_uuid = user; amount = amount })

unfoldable pub create_db_payment : Validated → Action Tables Code Payment
create_db_payment v = or_else (query (create_payment v.order_uuid v.user_uuid v.amount)) to_internal

unfoldable pub update_db_payment_status : Payment → Action Tables Code Payment
update_db_payment_status p = do
  status ← or_else (query (get_payment_status_by_name "SUCCEEDED")) to_internal
  or_else (query (update_payment_status p.id status)) to_internal

unfoldable pub process_create_and_update_payment : Validated → Action Tables Code Payment
process_create_and_update_payment v = do p ← create_db_payment v; update_db_payment_status p

abbrev pub get_error : Error → Code
get_error no_rows = not_found
get_error _ = internal

module _ (pf : Platform) where
  unfoldable pub process_payment :
      ContextState → ProcessPaymentRequest → Action Tables Code GrpcPayment
  process_payment ctx req = do
    check_live pf ctx
    v ← validate_process_payment_request pf req
    p ← process_create_and_update_payment v
    require (map_repository_to_grpc pf p) internal

  unfoldable pub get_payment : ContextState → String → Action Tables Code GrpcPayment
  get_payment ctx id = do
    check_live pf ctx
    uuid ← require (pf.scan_uuid id) invalid_argument
    p ← or_else (query (get_payment_by_id uuid)) get_error
    require (map_repository_to_grpc pf p) internal
