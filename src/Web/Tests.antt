-- ===== src/Web/Tests.antt =====
-- Concrete responses.
use microservices.Prelude.{ℕ, ◌≡◌, refl, [], ◌∷◌}
use microservices.Grpc.{internal, unknown}
use microservices.Web.{
  Status, grpc_problem, get_error_documentation_link, http_status_from_grpc,
  respond_with_grpc_error,
}

internal_status : http_status_from_grpc internal ≡ 500
unfolding http_status_from_grpc
internal_status = refl

unknown_status : http_status_from_grpc unknown ≡ 500
unfolding http_status_from_grpc
unknown_status = refl

abbrev secret : Status
secret = record {
  code = internal;
  message = "pq: password authentication failed";
  details = "{\"table\":\"users\"}" ∷ [];
}

-- The message of an internal error stays inside, its details do not.
shows_details :
    respond_with_grpc_error {A = ℕ} "/api/carts" secret
    ≡ grpc_problem (record {
      doc_type = "https://tools.ietf.org/html/rfc7231#section-6.6.1";
      title = "Internal Server Error";
      status = 500;
      detail = "an internal server error occurred";
      path = "/api/carts";
      details = "{\"table\":\"users\"}" ∷ [];
    })
unfolding respond_with_grpc_error http_status_from_grpc get_error_documentation_link
shows_details = refl
