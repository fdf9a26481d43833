-- ===== src/Gateway/Categories.antt =====
-- api-gateway/internal/handlers/product_categories_handler.go.
use microservices.Prelude.{String, Option, none, some, ◌||◌, if◌then◌else◌, str_eq}
use microservices.Effect.{Result, ok, err}
use microservices.Web.{
  Response, respond_with_error, respond_with_json, respond_with_grpc_error, check_context,
}
use microservices.Gateway.{
  Call, get_product_categories, create_product_category, update_product_category,
  delete_product_category, GrpcError, grpc_status, other, Request, Libraries, Services, Exchange,
  Handler, respond, after_call,
}
use microservices.Gateway.Handlers.{decoded}

module _ {Body : Type 0} (lib : Libraries) (services : Services Body) where
  abbrev pub if_live : Option (Response Body) → Exchange Body → Exchange Body
  if_live none e = e
  if_live (some r) e = respond r

  abbrev pub category_answer :
      String → (Body → Response Body) → Result GrpcError Body → Response Body
  category_answer path f (ok b) = f b
  category_answer path f (err (grpc_status st)) = respond_with_grpc_error path st
  category_answer path f (err (other e)) =
      respond_with_error path 500 "Internal Server Error" "an internal server error occurred"

  abbrev pub forward_category : Request → (Body → Response Body) → Call → Exchange Body
  forward_category req f c = after_call c (category_answer req.path f (services.reply c))

  abbrev pub validation_error : Request → String → Exchange Body
  validation_error req detail = respond (respond_with_error req.path 400 "Validation Error" detail)

  -- `categories_of` is none for a reply without categories.
  abbrev pub listed : Option Body → Response Body
  listed none = respond_with_json 200 (some services.no_categories)
  listed (some b) = respond_with_json 200 (some b)

  unfoldable pub get_product_categories_handler : Handler Body
  get_product_categories_handler claims req =
      if_live (check_context req.path req.context)
        (forward_category req (λ b. listed (services.categories_of b)) get_product_categories)

  unfoldable pub create_product_category_handler : Handler Body
  create_product_category_handler claims req = if_live (check_context req.path req.context) (
      decoded lib services req (lib.decode_category req.body) (λ c.
        if str_eq c.name ""
        then validation_error req "name is required"
        else forward_category req (λ b. respond_with_json 201 (some b))
            (create_product_category c.name c.description)))

  unfoldable pub update_product_category_handler : Handler Body
  update_product_category_handler claims req = if_live (check_context req.path req.context) (
      decoded lib services req (lib.decode_category req.body) (λ c.
        if str_eq c.id "" || str_eq c.name ""
        then validation_error req "Category ID and name is required"
        else forward_category req (λ b. respond_with_json 204 none) (update_product_category c)))

  unfoldable pub delete_product_category_handler : Handler Body
  delete_product_category_handler claims req = if_live (check_context req.path req.context) (
      if str_eq req.value ""
      then validation_error req "category ID is required"
      else forward_category req (λ b. respond_with_json 204 none)
          (delete_product_category req.value))
