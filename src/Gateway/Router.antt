-- ===== src/Gateway/Router.antt =====
-- api-gateway/internal/router/router.go: the routes, and those that want a token.
use microservices.Prelude.{none}
use microservices.Gateway.{Request, Libraries, Services, Exchange, Handler, auth_middleware}
use microservices.Gateway.Handlers.{
  create_product_handler, get_product_handler, list_products_handler, update_product_handler,
  delete_product_handler, get_products_by_category_id_handler, get_cart_handler,
  add_product_to_cart_handler, remove_product_from_cart_handler, clear_cart_handler,
  delete_cart_handler, create_order_handler, create_user_handler, get_user_by_id_handler,
  login_handler, logout_handler,
}
use microservices.Gateway.Categories.{
  get_product_categories_handler, create_product_category_handler, update_product_category_handler,
  delete_product_category_handler,
}

-- The patterns that the mux is given, but for the health check and the search, which is forwarded.
pub data Route : Type 0 where
  get_user post_users post_login post_logout : Route
  get_product get_products get_products_of_category post_products put_product delete_product : Route
  get_categories post_categories put_categories delete_category : Route
  get_cart post_cart_products delete_cart_product delete_cart_products delete_cart : Route
  post_orders : Route

module _ {Body : Type 0} (lib : Libraries) (services : Services Body) where
  abbrev pub open_route : Handler Body → Request → Exchange Body
  open_route h req = h none req

  abbrev pub protected : Handler Body → Request → Exchange Body
  protected h req = auth_middleware lib h req

  unfoldable pub serve : Route → Request → Exchange Body
  serve get_user = protected (get_user_by_id_handler lib services)
  serve post_users = open_route (create_user_handler lib services)
  serve post_login = open_route (login_handler lib services)
  serve post_logout = open_route (logout_handler lib services)
  serve get_product = open_route (get_product_handler lib services)
  serve get_products = open_route (list_products_handler lib services)
  serve get_products_of_category = open_route (get_products_by_category_id_handler lib services)
  serve post_products = protected (create_product_handler lib services)
  serve put_product = protected (update_product_handler lib services)
  serve delete_product = protected (delete_product_handler lib services)
  serve get_categories = open_route (get_product_categories_handler lib services)
  serve post_categories = protected (create_product_category_handler lib services)
  serve put_categories = protected (update_product_category_handler lib services)
  serve delete_category = protected (delete_product_category_handler lib services)
  serve get_cart = protected (get_cart_handler lib services)
  serve post_cart_products = protected (add_product_to_cart_handler lib services)
  serve delete_cart_product = protected (remove_product_from_cart_handler lib services)
  serve delete_cart_products = protected (clear_cart_handler lib services)
  serve delete_cart = protected (delete_cart_handler lib services)
  serve post_orders = protected (create_order_handler lib services)
