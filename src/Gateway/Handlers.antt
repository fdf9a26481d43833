-- ===== src/Gateway/Handlers.antt =====
-- api-gateway/internal/handlers: products, carts, orders, users and authentication.
use microservices.Prelude.{
  ℕ, zero, suc, String, Option, none, some, [], ◌∷◌, if◌then◌else◌, ◌%◌, ◌-◌, ltb, str_eq,
}
use microservices.Prelude.Int.{ℤ, pos, negsuc}
use microservices.Grpc.{live, ctx_canceled, ctx_deadline_exceeded, ctx_failed}
use microservices.Effect.{Result, ok, err}
use microservices.Web.{
  Response, no_content, respond_with_error, respond_with_json, respond_with_grpc_error,
}
use microservices.Gateway.{
  Call, create_product, get_product, list_products, update_product, delete_product,
  get_products_by_category_id, get_cart, add_product_to_cart, remove_product_from_cart, clear_cart,
  delete_cart, create_order, create_user, get_user_by_id, authorize_user, GrpcError, grpc_status,
  other, from_error, Claims, Request, Libraries, Services, UserResponse, Exchange, Handler, respond,
  after_call,
}

-- int32 of a number that is not negative.
abbrev pub to_int32 : ℕ → ℤ
to_int32 n =
    if ltb (n % 4294967296) 2147483648
    then pos (n % 4294967296)
    else negsuc (4294967296 - (n % 4294967296) - 1)

abbrev pub page_limit : ℤ → ℤ
page_limit (pos zero) = pos 10
page_limit (pos (suc n)) = to_int32 (suc n)
page_limit (negsuc n) = pos 10

abbrev pub page_offset : ℤ → ℤ
page_offset (pos n) = to_int32 n
page_offset (negsuc n) = pos 0

module _ {Body : Type 0} (lib : Libraries) (services : Services Body) where
  -- The response to the result of a call, where every error becomes a status.
  abbrev pub answer : String → (Body → Response Body) → Result GrpcError Body → Response Body
  answer path f (ok b) = f b
  answer path f (err e) = respond_with_grpc_error path (from_error e)

  -- The same, where an error that is no status is reported by its text.
  abbrev pub answer_checked :
      String → String → (Body → Response Body) → Result GrpcError Body → Response Body
  answer_checked path title f (ok b) = f b
  answer_checked path title f (err (grpc_status st)) = respond_with_grpc_error path st
  answer_checked path title f (err (other e)) = respond_with_error path 500 title e

  abbrev pub invalid_body : String → String → Exchange Body
  invalid_body path e = respond (respond_with_error path 400 "Invalid Request Body" e)

  -- A handler that makes one call and replies its result.
  abbrev pub forward : Request → (Body → Response Body) → Call → Exchange Body
  forward req f c = after_call c (answer req.path f (services.reply c))

  abbrev pub decoded :
      {A : Type 0} → Request → Result String A → (A → Exchange Body) → Exchange Body
  decoded req (ok a) f = f a
  decoded req (err e) f = invalid_body req.path e

  unfoldable pub create_product_handler : Handler Body
  create_product_handler claims req =
      decoded req (lib.decode_product req.body)
        (λ product. forward req (λ b. respond_with_json 201 (some b)) (create_product product))

  unfoldable pub get_product_handler : Handler Body
  get_product_handler claims req =
      forward req (λ b. respond_with_json 200 (some b)) (get_product req.value)

  unfoldable pub list_products_handler : Handler Body
  list_products_handler claims req =
      forward req (λ b. respond_with_json 200 (some (services.products b)))
        (list_products (page_limit (lib.atoi (req.query "limit")))
          (page_offset (lib.atoi (req.query "offset"))))

  unfoldable pub update_product_handler : Handler Body
  update_product_handler claims req = decoded req (lib.decode_product req.body) (λ product.
      forward req (λ b. respond_with_json 200 (some b)) (update_product req.value product))

  unfoldable pub delete_product_handler : Handler Body
  delete_product_handler claims req = forward req (λ b. no_content 204) (delete_product req.value)

  -- The check of the context here answers a canceled request by 408.
  unfoldable pub get_products_by_category_id_handler : Handler Body
  get_products_by_category_id_handler claims req = elim req.context [
    | ctx_canceled ↦ respond (
        respond_with_error req.path 408 "Request Canceled" "the request was canceled by the client")
    | ctx_deadline_exceeded ↦
        respond
          (respond_with_error req.path 504 "Deadline Exceeded" "the request deadline was exceeded")
    | ctx_failed ↦ respond (
        respond_with_error req.path 500 "Internal Server Error" "an internal server error occurred")
    | live ↦
        if str_eq req.value ""
        then respond
            (respond_with_error req.path 400 "Category ID is required" "missing category ID")
        else after_call (get_products_by_category_id req.value) (
            answer_unless_status req.path (λ b. respond_with_json 200 (some (services.products b)))
              (services.reply (get_products_by_category_id req.value)))
  ]
    where
      answer_unless_status : String → (Body → Response Body) → Result GrpcError Body → Response Body
      answer_unless_status path f (ok b) = f b
      answer_unless_status path f (err (grpc_status st)) = respond_with_grpc_error path st
      answer_unless_status path f (err (other e)) =
          respond_with_error path 500 "Internal Server Error" "an internal server error occurred"

  abbrev pub for_user : Option Claims → Request → (String → Exchange Body) → Exchange Body
  for_user none req f =
      respond (respond_with_error req.path 401 "Unauthorized" "user claims not found")
  for_user (some claims) req f = f claims.subject

  unfoldable pub get_cart_handler : Handler Body
  get_cart_handler claims req =
      for_user claims req
        (λ user. forward req (λ b. respond_with_json 200 (some b)) (get_cart user))

  unfoldable pub add_product_to_cart_handler : Handler Body
  add_product_to_cart_handler claims req = for_user claims req (λ user.
      decoded req (lib.decode_line req.body)
        (λ line. forward req (λ b. respond_with_json 200 (some b)) (add_product_to_cart user line)))

  unfoldable pub remove_product_from_cart_handler : Handler Body
  remove_product_from_cart_handler claims req =
      for_user claims req
        (λ user. forward req (λ b. no_content 204) (remove_product_from_cart user req.value))

  unfoldable pub clear_cart_handler : Handler Body
  clear_cart_handler claims req =
      for_user claims req (λ user. forward req (λ b. no_content 204) (clear_cart user))

  unfoldable pub delete_cart_handler : Handler Body
  delete_cart_handler claims req =
      for_user claims req (λ user. forward req (λ b. no_content 204) (delete_cart user))

  unfoldable pub create_order_handler : Handler Body
  create_order_handler claims req =
      for_user claims req
        (λ user. forward req (λ b. respond_with_json 201 (some b)) (create_order user))

  -- Every error is a 500 with the message of the status.
  unfoldable pub create_user_handler : Handler Body
  create_user_handler claims req =
      decoded req (lib.decode_user req.body) (λ user.
        after_call (create_user user) (created req.path (services.reply (create_user user))))
    where
      created : String → Result GrpcError Body → Response Body
      created path (ok b) = respond_with_json 201 none
      created path (err e) =
          respond_with_error path 500 "Failed to create user" (from_error e).message

  unfoldable pub get_user_by_id_handler : Handler Body
  get_user_by_id_handler claims req = after_call (get_user_by_id req.value) (
      answer_checked req.path "Failed to get user" (λ b. respond_with_json 200 (some b))
        (services.reply (get_user_by_id req.value)))

  -- A token for the user whom AuthorizeUser replied.
  abbrev pub log_in : String → Call → UserResponse → Option String → Exchange Body
  log_in path c user none = after_call c (
      respond_with_error path 500 "Internal Server Error"
        "Failed to generate authentication token.")
  log_in path c user (some token) = record {
    calls = c ∷ [];
    set_cookie = some token;
    response = respond_with_json 200 (some (services.user_body user));
  }

  abbrev pub authorized : String → Call → Result GrpcError Body → Exchange Body
  authorized path c (ok b) =
      log_in path c (services.user b) (lib.sign_token (services.user b).id (services.user b).email)
  authorized path c (err (grpc_status st)) = after_call c (respond_with_grpc_error path st)
  authorized path c (err (other e)) =
      after_call c (respond_with_error path 500 "Failed to authorize user" e)

  unfoldable pub login_handler : Handler Body
  login_handler claims req =
      decoded req (lib.decode_login req.body) (λ login.
        authorized req.path (authorize_user login) (services.reply (authorize_user login)))

  -- An empty value that has expired.
  unfoldable pub logout_handler : Handler Body
  logout_handler claims req = record {
    calls = [];
    set_cookie = some "";
    response = respond_with_json 200 (some services.logged_out);
  }
