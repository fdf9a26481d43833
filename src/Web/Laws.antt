-- ===== src/Web/Laws.antt =====
-- Statuses stay in the range of HTTP.
use microservices.Prelude.{◌≤◌, ◌≢◌, refl, arith}
use microservices.Grpc.{Code, ok_code}
use microservices.Web.{http_status_from_grpc, get_error_documentation_link}

-- Every gRPC code but OK becomes an HTTP error status, from 400 to 504, for which the platform has
-- a documentation link: no problem detail of a gRPC error has the type about:blank.
http_status_known :
    (c : Code)
    → c ≢ ok_code
    → (400 ≤ http_status_from_grpc c)
      × (http_status_from_grpc c ≤ 504)
      × (get_error_documentation_link (http_status_from_grpc c) ≢ "about:blank")
unfolding http_status_from_grpc get_error_documentation_link
http_status_known ok_code h = absurd (h refl)
http_status_known _ h = (omega arith, omega arith, cc)
