-- ===== src/Grpc.antt =====
-- What the services share of gRPC: the status codes, the state of a request's context, and the
-- functions of third-party packages that the handlers call, which are parameters of the model.
use microservices.Prelude.{ℕ, String, Bool, Option}
use microservices.Prelude.Int.{ℤ}

-- The codes of google.golang.org/grpc/codes.
pub data Code : Type 0 where
  ok_code canceled unknown invalid_argument deadline_exceeded not_found already_exists : Code
  permission_denied resource_exhausted failed_precondition aborted out_of_range : Code
  unimplemented internal unavailable data_loss unauthenticated : Code

-- `ctx.Err()`: nil, context.Canceled, context.DeadlineExceeded or another error.
pub data ContextState : Type 0 where
  live ctx_canceled ctx_deadline_exceeded ctx_failed : ContextState

-- A pgtype.UUID that is valid, by the number that its sixteen bytes spell.
abbrev pub Uuid : Type 0
Uuid = ℕ

-- A float64, by its bit pattern: only the functions below look into it.
abbrev pub Float64 : Type 0
Float64 = ℕ

-- A pgtype.Numeric in hundredths, the scale of every money column.
pub data Numeric : Type 0 where
  hundredths : ℤ → Numeric
  nan : Numeric

-- Third-party functions. `scan_uuid` is pgtype.UUID.Scan of a string and `uuid_string` is
-- pgtype.UUID.String; `scan_money x` is pgtype.Numeric.Scan of fmt.Sprintf("%.2f", x);
-- `float64_value` is pgtype.Numeric.Float64Value, where `none` is its error and `some none` a value
-- that is not valid; `le_zero x` is the comparison x <= 0; `from_context_error` is status.FromContextError.
pub record Platform : Type 0 where
  pub scan_uuid : String → Option Uuid
  pub uuid_string : Uuid → String
  pub scan_money : Float64 → Option Numeric
  pub le_zero : Float64 → Bool
  pub float64_value : Numeric → Option (Option Float64)
  pub from_context_error : ContextState → Code
