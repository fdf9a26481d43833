-- ===== src/Web.antt =====
-- shared/web/response.go: HTTP statuses for gRPC codes, problem details, and the check of a
-- request's context. Header writes and the JSON encoding of a body are not modelled.
pub mod Laws
mod Tests
use microservices.Prelude.{
  ℕ, String, Bool, true, false, if◌then◌else◌, ◌==◌, Option, none, some, List,
}
use microservices.Grpc.{
  Code, ok_code, canceled, unknown, invalid_argument, deadline_exceeded, not_found, already_exists,
  permission_denied, resource_exhausted, failed_precondition, aborted, out_of_range, unimplemented,
  internal, unavailable, data_loss, unauthenticated, ContextState, live, ctx_canceled,
  ctx_deadline_exceeded, ctx_failed,
}

pub record ProblemDetail : Type 0 where
  pub doc_type : String
  pub title : String
  pub status : ℕ
  pub detail : String
  pub path : String

-- GRPCProblemDetail, each of its details as its JSON text.
pub record GrpcProblemDetail : Type 0 where
  pub doc_type : String
  pub title : String
  pub status : ℕ
  pub detail : String
  pub path : String
  pub details : List String

-- A response: its status, and the problem detail or the plain body. `payload` stands for the body
-- of a success.
pub data Response (A : Type 0) : Type 0 where
  payload : ℕ → A → Response A
  no_content : ℕ → Response A
  problem : ProblemDetail → Response A
  grpc_problem : GrpcProblemDetail → Response A

-- A gRPC status: its code, its message and its details.
pub record Status : Type 0 where
  pub code : Code
  pub message : String
  pub details : List String

unfoldable pub http_status_from_grpc : Code → ℕ
http_status_from_grpc ok_code = 200
http_status_from_grpc canceled = 499
http_status_from_grpc unknown = 500
http_status_from_grpc invalid_argument = 400
http_status_from_grpc deadline_exceeded = 504
http_status_from_grpc not_found = 404
http_status_from_grpc already_exists = 409
http_status_from_grpc permission_denied = 403
http_status_from_grpc resource_exhausted = 429
http_status_from_grpc failed_precondition = 400
http_status_from_grpc aborted = 409
http_status_from_grpc out_of_range = 400
http_status_from_grpc unimplemented = 501
http_status_from_grpc internal = 500
http_status_from_grpc unavailable = 503
http_status_from_grpc data_loss = 500
http_status_from_grpc unauthenticated = 401

unfoldable pub get_error_documentation_link : ℕ → String
get_error_documentation_link status =
    if status == 400
    then "https://tools.ietf.org/html/rfc7231#section-6.5.1"
    else if status == 401
    then "https://tools.ietf.org/html/rfc7235#section-3.1"
    else if status == 403
    then "https://tools.ietf.org/html/rfc7231#section-6.5.3"
    else if status == 404
    then "https://tools.ietf.org/html/rfc7231#section-6.5.4"
    else if status == 500
    then "https://tools.ietf.org/html/rfc7231#section-6.6.1"
    else if status == 503
    then "https://tools.ietf.org/html/rfc7231#section-6.6.4"
    else if status == 408
    then "https://tools.ietf.org/html/rfc7231#section-6.5.7"
    else if status == 409
    then "https://tools.ietf.org/html/rfc7231#section-6.5.8"
    else if status == 429
    then "https://tools.ietf.org/html/rfc6585#section-4"
    else if status == 501
    then "https://tools.ietf.org/html/rfc7231#section-6.6.2"
    else if status == 504
    then "https://tools.ietf.org/html/rfc7231#section-6.6.3"
    else if status == 502
    then "https://tools.ietf.org/html/rfc7231#section-6.6.3"
    else if status == 499
    then "https://httpstatuses.com/499"
    else "about:blank"

unfoldable pub respond_with_json : {A : Type 0} → ℕ → Option A → Response A
respond_with_json status none = no_content status
respond_with_json status (some a) = payload status a

unfoldable pub respond_with_error : {A : Type 0} → String → ℕ → String → String → Response A
unfolding get_error_documentation_link
respond_with_error path status title detail = problem (record {
  doc_type = get_error_documentation_link status;
  title = title;
  status = status;
  detail = detail;
  path = path;
})

unfoldable pub respond_with_grpc_error : {A : Type 0} → String → Status → Response A
unfolding http_status_from_grpc get_error_documentation_link
respond_with_grpc_error path st =
    let http_status = http_status_from_grpc st.code in
    if http_status == 500
    then grpc_problem (record {
      doc_type = get_error_documentation_link http_status;
      title = "Internal Server Error";
      status = http_status;
      detail = "an internal server error occurred";
      path = path;
      details = st.details;
    })
    else grpc_problem (record {
      doc_type = get_error_documentation_link http_status;
      title = st.message;
      status = http_status;
      detail = st.message;
      path = path;
      details = st.details;
    })

-- `none`: the context is live and the handler goes on; otherwise the response that ends it.
unfoldable pub check_context : {A : Type 0} → String → ContextState → Option (Response A)
unfolding respond_with_error
check_context path live = none
check_context path ctx_canceled =
    some (respond_with_error path 499 "Request Canceled" "the request was canceled by the client")
check_context path ctx_deadline_exceeded =
    some (respond_with_error path 504 "Deadline Exceeded" "the request deadline was exceeded")
check_context path ctx_failed =
    some (respond_with_error path 500 "Internal Server Error" "an internal server error occurred")
