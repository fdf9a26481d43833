-- ===== src/Gateway/Access.antt =====
-- Whose carts and orders a request can reach, for every route.
use microservices.Prelude.{◌≡◌, refl, String, ◌||◌, Option, none, some, str_eq}
use microservices.Grpc.{ContextState, live, ctx_canceled, ctx_deadline_exceeded, ctx_failed}
use microservices.Web.{Response, check_context}
use microservices.Gateway.{
  Call, user_of, Claims, Request, Libraries, Services, Exchange, Handler, after_call,
  auth_middleware, authorize_user,
}
use microservices.Gateway.Handlers.{
  for_user, create_product_handler, get_product_handler, list_products_handler,
  update_product_handler, delete_product_handler, get_products_by_category_id_handler,
  get_cart_handler, add_product_to_cart_handler, remove_product_from_cart_handler,
  clear_cart_handler, delete_cart_handler, create_order_handler, create_user_handler,
  get_user_by_id_handler, login_handler, logout_handler,
}
use microservices.Gateway.Categories.{
  get_product_categories_handler, create_product_category_handler, update_product_category_handler,
  delete_product_category_handler,
}
use microservices.Gateway.Router.{Route, serve}
use microservices.Gateway.Laws.{
  HasToken, Within, quiet, once, anonymous, decoded-Within, if_live-Within, if-Within,
  authorized-Within, auth_middleware-Within,
}

module _ {Body : Type 0} (lib : Libraries) (services : Services Body) (req : Request) where
  -- The subject of a valid token that came with the request.
  abbrev pub IsSubject : String → Type 0
  IsSubject user = (c : Claims) × HasToken lib req c × (c.subject ≡ user)

  as_subject :
      (c : Claims) (call : Call) (r : Response Body)
      → HasToken lib req c
      → ((user : String) → user_of call ≡ some user → c.subject ≡ user)
      → Within IsSubject (after_call call r)
  as_subject c call r h own =
      once IsSubject call (after_call call r) refl (λ user u. (c, h, own user u))

  for_user-IsSubject :
      (c : Claims) (f : String → Exchange Body)
      → Within IsSubject (f c.subject)
      → Within IsSubject (for_user lib services (some c) req f)
  for_user-IsSubject c f h = h

  category-Within :
      (claims : Option Claims)
      → Within IsSubject (create_product_category_handler lib services claims req)
        × Within IsSubject (update_product_category_handler lib services claims req)
        × Within IsSubject (delete_product_category_handler lib services claims req)
  unfolding create_product_category_handler update_product_category_handler
      delete_product_category_handler
  category-Within claims = (
    if_live-Within IsSubject lib services (check_context req.path req.context) _ (
        decoded-Within IsSubject lib services req (lib.decode_category req.body) _ (λ c.
          if-Within IsSubject lib services (str_eq c.name "") _ _ (quiet IsSubject _ refl)
            (anonymous IsSubject _ _ refl))),
    if_live-Within IsSubject lib services (check_context req.path req.context) _ (
        decoded-Within IsSubject lib services req (lib.decode_category req.body) _ (λ c.
          if-Within IsSubject lib services (str_eq c.id "" || str_eq c.name "") _ _
            (quiet IsSubject _ refl) (anonymous IsSubject _ _ refl))),
    if_live-Within IsSubject lib services (check_context req.path req.context) _ (
        if-Within IsSubject lib services (str_eq req.value "") _ _ (quiet IsSubject _ refl)
          (anonymous IsSubject _ _ refl)),
  )

  product-Within :
      (claims : Option Claims)
      → Within IsSubject (create_product_handler lib services claims req)
        × Within IsSubject (update_product_handler lib services claims req)
  unfolding create_product_handler update_product_handler
  product-Within claims = (
    decoded-Within IsSubject lib services req (lib.decode_product req.body) _
        (λ p. anonymous IsSubject _ _ refl),
    decoded-Within IsSubject lib services req (lib.decode_product req.body) _
        (λ p. anonymous IsSubject _ _ refl),
  )

  by_category-Within : Within IsSubject (get_products_by_category_id_handler lib services none req)
  unfolding get_products_by_category_id_handler
  by_category-Within = go req.context
    where
      go :
          (c : ContextState)
          → Within IsSubject
              (get_products_by_category_id_handler lib services none (record req { context = c }))
      go live =
          if-Within IsSubject lib services (str_eq req.value "") _ _ (quiet IsSubject _ refl)
            (anonymous IsSubject _ _ refl)
      go ctx_canceled = quiet IsSubject _ refl
      go ctx_deadline_exceeded = quiet IsSubject _ refl
      go ctx_failed = quiet IsSubject _ refl

  cart-Within :
      (c : Claims)
      → HasToken lib req c
      → Within IsSubject (get_cart_handler lib services (some c) req)
        × Within IsSubject (add_product_to_cart_handler lib services (some c) req)
        × Within IsSubject (remove_product_from_cart_handler lib services (some c) req)
        × Within IsSubject (clear_cart_handler lib services (some c) req)
        × Within IsSubject (delete_cart_handler lib services (some c) req)
        × Within IsSubject (create_order_handler lib services (some c) req)
  unfolding get_cart_handler add_product_to_cart_handler remove_product_from_cart_handler
      clear_cart_handler delete_cart_handler create_order_handler
  cart-Within c h = (
    as_subject c _ _ h (λ user u. cc),
    decoded-Within IsSubject lib services req (lib.decode_line req.body) _
        (λ line. as_subject c _ _ h (λ user u. cc)),
    as_subject c _ _ h (λ user u. cc),
    as_subject c _ _ h (λ user u. cc),
    as_subject c _ _ h (λ user u. cc),
    as_subject c _ _ h (λ user u. cc),
  )

  open-Within :
      Within IsSubject (create_user_handler lib services none req)
      × Within IsSubject (login_handler lib services none req)
      × Within IsSubject (logout_handler lib services none req)
      × Within IsSubject (get_product_handler lib services none req)
      × Within IsSubject (list_products_handler lib services none req)
      × Within IsSubject (get_product_categories_handler lib services none req)
  unfolding create_user_handler login_handler logout_handler get_product_handler
      list_products_handler get_product_categories_handler
  open-Within = (
    decoded-Within IsSubject lib services req (lib.decode_user req.body) _
        (λ u. anonymous IsSubject _ _ refl),
    decoded-Within IsSubject lib services req (lib.decode_login req.body) _ (λ l.
        authorized-Within IsSubject lib services req.path l (services.reply (authorize_user l))),
    quiet IsSubject _ refl,
    anonymous IsSubject _ _ refl,
    anonymous IsSubject _ _ refl,
    if_live-Within IsSubject lib services (check_context req.path req.context) _
        (anonymous IsSubject _ _ refl),
  )

  protected-Within :
      (next : Handler Body)
      → ((c : Claims) → HasToken lib req c → Within IsSubject (next (some c) req))
      → Within IsSubject (auth_middleware lib next req)
  protected-Within next h = auth_middleware-Within IsSubject lib services next req h

  -- On every route of the gateway a request makes at most one call, and a call that acts for a
  -- user, on a cart or an order, is for the subject of a valid token that came with the request.
  pub serve-Within : (route : Route) → Within IsSubject (serve lib services route req)
  unfolding serve get_user_by_id_handler delete_product_handler
  serve-Within Route.get_user = protected-Within _ (λ c h. anonymous IsSubject _ _ refl)
  serve-Within Route.post_users = open-Within.0
  serve-Within Route.post_login = open-Within.1
  serve-Within Route.post_logout = open-Within.2
  serve-Within Route.get_product = open-Within.3
  serve-Within Route.get_products = open-Within.4
  serve-Within Route.get_products_of_category = by_category-Within
  serve-Within Route.post_products = protected-Within _ (λ c h. (product-Within (some c)).0)
  serve-Within Route.put_product = protected-Within _ (λ c h. (product-Within (some c)).1)
  serve-Within Route.delete_product = protected-Within _ (λ c h. anonymous IsSubject _ _ refl)
  serve-Within Route.get_categories = open-Within.5
  serve-Within Route.post_categories = protected-Within _ (λ c h. (category-Within (some c)).0)
  serve-Within Route.put_categories = protected-Within _ (λ c h. (category-Within (some c)).1)
  serve-Within Route.delete_category = protected-Within _ (λ c h. (category-Within (some c)).2)
  serve-Within Route.get_cart = protected-Within _ (λ c h. (cart-Within c h).0)
  serve-Within Route.post_cart_products = protected-Within _ (λ c h. (cart-Within c h).1)
  serve-Within Route.delete_cart_product = protected-Within _ (λ c h. (cart-Within c h).2)
  serve-Within Route.delete_cart_products = protected-Within _ (λ c h. (cart-Within c h).3)
  serve-Within Route.delete_cart = protected-Within _ (λ c h. (cart-Within c h).4)
  serve-Within Route.post_orders = protected-Within _ (λ c h. (cart-Within c h).5)
