-- ===== src/Gateway.antt =====
-- api-gateway/internal: a request, the calls that it makes of the services, and its response; with
-- shared/auth/jwt.go and middlewares/auth_middleware.go.
pub mod Handlers
pub mod Categories
pub mod Router
pub mod Laws
pub mod Access
pub mod Tokens
pub mod Pages
mod Tests
use microservices.Prelude.{
  ℕ, String, Option, none, some, List, [], ◌∷◌, if◌then◌else◌, starts_with, slice, len,
}
use microservices.Prelude.Int.{ℤ}
use microservices.Grpc.{ContextState, Float64, unknown}
use microservices.Effect.{Result, ok, err}
use microservices.Web.{Response, Status, respond_with_error, respond_with_grpc_error}

pub record ProductRequest : Type 0 where
  pub category_id : String
  pub name : String
  pub description : String
  pub price : Float64
  pub stock_quantity : ℤ

pub record CategoryRequest : Type 0 where
  pub id : String
  pub name : String
  pub description : String

pub record CreateUserRequest : Type 0 where
  pub username : String
  pub email : String
  pub password : String

pub record LoginRequest : Type 0 where
  pub email : String
  pub password : String

pub record AddProductToCartRequest : Type 0 where
  pub product_id : String
  pub quantity : ℤ

-- A call of another service by gRPC.
pub data Call : Type 0 where
  create_product : ProductRequest → Call
  get_product : String → Call
  list_products : ℤ → ℤ → Call
  update_product : String → ProductRequest → Call
  delete_product : String → Call
  get_products_by_category_id : String → Call
  get_product_categories : Call
  create_product_category : String → String → Call
  update_product_category : CategoryRequest → Call
  delete_product_category : String → Call
  get_cart : String → Call
  add_product_to_cart : String → AddProductToCartRequest → Call
  remove_product_from_cart : String → String → Call
  clear_cart : String → Call
  delete_cart : String → Call
  create_order : String → Call
  create_user : CreateUserRequest → Call
  get_user_by_id : String → Call
  authorize_user : LoginRequest → Call

-- The user in whose name a service acts.
abbrev pub user_of : Call → Option String
user_of (get_cart user) = some user
user_of (add_product_to_cart user line) = some user
user_of (remove_product_from_cart user product) = some user
user_of (clear_cart user) = some user
user_of (delete_cart user) = some user
user_of (create_order user) = some user
user_of _ = none

-- The error of a call: a gRPC status, or another error by its text.
pub data GrpcError : Type 0 where
  grpc_status : Status → GrpcError
  other : String → GrpcError

-- status.FromError, where its second result is ignored.
abbrev pub from_error : GrpcError → Status
from_error (grpc_status st) = st
from_error (other e) = record { code = unknown; message = e; details = [] }

pub record Claims : Type 0 where
  pub email : String
  pub subject : String

-- r.Cookie: a value, http.ErrNoCookie or another error.
pub data Cookie : Type 0 where
  cookie : String → Cookie
  no_cookie bad_cookie : Cookie

pub record UserResponse : Type 0 where
  pub id : String
  pub username : String
  pub email : String

-- A request: `value` is r.PathValue of the route's parameter, and `query` the query parameters.
pub record Request : Type 0 where
  pub path : String
  pub context : ContextState
  pub auth_cookie : Cookie
  pub value : String
  pub query : String → String
  pub body : String

-- What the gateway uses of other packages: the decoding of JSON bodies with the text of an error,
-- strconv.Atoi, strings.TrimSpace and ToLower, the parser of tokens with the manager's keys, issuer
-- and audience, and the signing of a token for a user and an email.
pub record Libraries : Type 0 where
  pub decode_product : String → Result String ProductRequest
  pub decode_category : String → Result String CategoryRequest
  pub decode_user : String → Result String CreateUserRequest
  pub decode_login : String → Result String LoginRequest
  pub decode_line : String → Result String AddProductToCartRequest
  pub atoi : String → ℤ
  pub trim_space : String → String
  pub to_lower : String → String
  pub parse_token : String → Option Claims
  pub sign_token : String → String → Option String

-- The other services: what each call replies. `Body` is the type of the replies; `user` reads the
-- reply of AuthorizeUser and `no_categories` is the empty list.
pub record Services (Body : Type 0) : Type 0 where
  pub reply : Call → Result GrpcError Body
  pub user : Body → UserResponse
  pub products : Body → Body
  pub categories_of : Body → Option Body
  pub no_categories : Body
  pub user_body : UserResponse → Body
  pub logged_out : Body

-- The calls of a request, the value of the authentication cookie that it sets, and the response.
pub record Exchange (Body : Type 0) : Type 0 where
  pub calls : List Call
  pub set_cookie : Option String
  pub response : Response Body

abbrev pub Handler : Type 0 → Type 0
Handler Body = Option Claims → Request → Exchange Body

module _ {Body : Type 0} where
  abbrev pub respond : Response Body → Exchange Body
  respond r = record { calls = []; set_cookie = none; response = r }

  abbrev pub after_call : Call → Response Body → Exchange Body
  after_call c r = record { calls = c ∷ []; set_cookie = none; response = r }

-- A bearer prefix of seven characters is cut off.
unfoldable pub sanitize_bearer : Libraries → String → String
sanitize_bearer lib s =
    let t = lib.trim_space s in
    if starts_with (lib.to_lower t) "bearer " then lib.trim_space (slice t 7 (len t)) else t

unfoldable pub validate_token : Libraries → String → Option Claims
validate_token lib token = lib.parse_token (sanitize_bearer lib token)

module _ {Body : Type 0} (lib : Libraries) where
  abbrev pub with_claims : Option Claims → Handler Body → Request → Exchange Body
  with_claims none next req =
      respond (respond_with_error req.path 401 "Unauthorized" "Invalid or expired token.")
  with_claims (some claims) next req = next (some claims) req

  abbrev pub with_cookie : Cookie → Handler Body → Request → Exchange Body
  with_cookie no_cookie next req =
      respond (respond_with_error req.path 401 "Unauthorized" "Missing authentication cookie.")
  with_cookie bad_cookie next req =
      respond (respond_with_error req.path 400 "Bad Request" "Invalid authentication cookie.")
  with_cookie (cookie token) next req = with_claims (validate_token lib token) next req

  unfoldable pub auth_middleware : Handler Body → Request → Exchange Body
  auth_middleware next req = with_cookie req.auth_cookie next req
