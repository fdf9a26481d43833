-- ===== src/Gateway/Tokens.antt =====
-- Requests without a valid token, and the handing out of tokens.
use microservices.Prelude.{
  ◌≡◌, refl, ◌∙◌, ◌⊎◌, inl, inr, String, false, Option, none, some, [], Option-cases,
}
use microservices.Effect.{Result, ok, err}
use microservices.Web.{ProblemDetail, problem, respond_with_error}
use microservices.Gateway.{
  GrpcError, grpc_status, other, Claims, Cookie, cookie, no_cookie, bad_cookie, Request, Libraries,
  Services, Exchange, Handler, validate_token, with_claims, with_cookie, auth_middleware,
  authorize_user, LoginRequest,
}
use microservices.Gateway.Handlers.{
  decoded, authorized, log_in, get_user_by_id_handler, create_product_handler,
  update_product_handler, delete_product_handler, get_cart_handler, add_product_to_cart_handler,
  remove_product_from_cart_handler, clear_cart_handler, delete_cart_handler, create_order_handler,
  login_handler,
}
use microservices.Gateway.Categories.{
  create_product_category_handler, update_product_category_handler, delete_product_category_handler,
}
use microservices.Gateway.Router.{Route, serve}
use microservices.Gateway.Laws.{is_public, HasToken}

-- A response to a request that was turned away.
pub record IsRefusal {Body : Type 0} (e : Exchange Body) : Type 0 where
  pub no_calls : e.calls ≡ []
  pub no_token : e.set_cookie ≡ none
  pub detail : ProblemDetail
  pub is_problem : e.response ≡ problem detail
  pub status : (detail.status ≡ 401) ⊎ (detail.status ≡ 400)

module _ {Body : Type 0} (lib : Libraries) (services : Services Body) where
  with_claims-IsRefusal :
      (o : Option Claims) (next : Handler Body) (req : Request)
      → o ≡ none
      → IsRefusal (with_claims lib o next req)
  unfolding respond_with_error
  with_claims-IsRefusal none next req h = record {
    no_calls = refl;
    no_token = refl;
    detail = _;
    is_problem = refl;
    status = inl refl;
  }
  with_claims-IsRefusal (some c) next req h = cc

  auth_middleware-IsRefusal :
      (next : Handler Body) (req : Request)
      → ((c : Claims) → HasToken lib req c → ⊥)
      → IsRefusal (auth_middleware lib next req)
  unfolding auth_middleware respond_with_error
  auth_middleware-IsRefusal next req h = go req.auth_cookie refl
    where
      go : (k : Cookie) → req.auth_cookie ≡ k → IsRefusal (with_cookie lib k next req)
      go no_cookie e = record {
        no_calls = refl;
        no_token = refl;
        detail = _;
        is_problem = refl;
        status = inl refl;
      }
      go bad_cookie e = record {
        no_calls = refl;
        no_token = refl;
        detail = _;
        is_problem = refl;
        status = inr refl;
      }
      go (cookie token) e = elim (Option-cases (validate_token lib token)) [
        | inl n ↦ with_claims-IsRefusal (validate_token lib token) next req n
        | inr (c, v) ↦ absurd (h c (record { token = token; sent = e; valid = v }))
      ]

  behind_middleware :
      (route : Route)
      → is_public route ≡ false
      → (next : Handler Body) × (serve lib services route ≡ auth_middleware lib next)
  unfolding serve
  behind_middleware Route.get_user h = (get_user_by_id_handler lib services, refl)
  behind_middleware Route.post_products h = (create_product_handler lib services, refl)
  behind_middleware Route.put_product h = (update_product_handler lib services, refl)
  behind_middleware Route.delete_product h = (delete_product_handler lib services, refl)
  behind_middleware Route.post_categories h = (create_product_category_handler lib services, refl)
  behind_middleware Route.put_categories h = (update_product_category_handler lib services, refl)
  behind_middleware Route.delete_category h = (delete_product_category_handler lib services, refl)
  behind_middleware Route.get_cart h = (get_cart_handler lib services, refl)
  behind_middleware Route.post_cart_products h = (add_product_to_cart_handler lib services, refl)
  behind_middleware Route.delete_cart_product h =
      (remove_product_from_cart_handler lib services, refl)
  behind_middleware Route.delete_cart_products h = (clear_cart_handler lib services, refl)
  behind_middleware Route.delete_cart h = (delete_cart_handler lib services, refl)
  behind_middleware Route.post_orders h = (create_order_handler lib services, refl)
  behind_middleware Route.post_users h = cc
  behind_middleware Route.post_login h = cc
  behind_middleware Route.post_logout h = cc
  behind_middleware Route.get_product h = cc
  behind_middleware Route.get_products h = cc
  behind_middleware Route.get_products_of_category h = cc
  behind_middleware Route.get_categories h = cc

  -- A request without a valid token, on a route that is not public, makes no call, gets no cookie,
  -- and is answered by a problem with the status 401 or 400.
  pub serve-IsRefusal :
      (route : Route) (req : Request)
      → is_public route ≡ false
      → ((c : Claims) → HasToken lib req c → ⊥)
      → IsRefusal (serve lib services route req)
  serve-IsRefusal route req hidden h =
      let (next, e) = behind_middleware route hidden in rw e (auth_middleware-IsRefusal next req h)

  -- The login that a token answers.
  pub record Login (req : Request) (token : String) : Type 0 where
    pub request : LoginRequest
    pub decoded_body : lib.decode_login req.body ≡ ok request
    pub body : Body
    pub accepted : services.reply (authorize_user request) ≡ ok body
    pub signed : lib.sign_token (services.user body).id (services.user body).email ≡ some token

  -- A login that sets a token as its cookie had a body with an email and a password that
  -- AuthorizeUser accepted, and the token was signed for the user whom AuthorizeUser replied.
  pub login_handler-Login :
      (claims : Option Claims) (req : Request) (token : String)
      → (login_handler lib services claims req).set_cookie ≡ some token
      → Login req token
  unfolding login_handler
  login_handler-Login claims req token h = of_body (lib.decode_login req.body) refl h
    where
      of_token :
          (l : LoginRequest) (b : Body) (o : Option String)
          → lib.decode_login req.body ≡ ok l
          → services.reply (authorize_user l) ≡ ok b
          → lib.sign_token (services.user b).id (services.user b).email ≡ o
          → (log_in lib services req.path (authorize_user l) (services.user b) o).set_cookie
            ≡ some token
          → Login req token
      of_token l b none d r s k = cc
      of_token l b (some t) d r s k = record {
        request = l;
        decoded_body = d;
        body = b;
        accepted = r;
        signed = s ∙ k;
      }

      of_reply :
          (l : LoginRequest) (r : Result GrpcError Body)
          → lib.decode_login req.body ≡ ok l
          → services.reply (authorize_user l) ≡ r
          → (authorized lib services req.path (authorize_user l) r).set_cookie ≡ some token
          → Login req token
      of_reply l (ok b) d r k = of_token l b _ d r refl k
      of_reply l (err (grpc_status st)) d r k = cc
      of_reply l (err (other e)) d r k = cc

      of_body :
          (d : Result String LoginRequest)
          → lib.decode_login req.body ≡ d
          → (decoded lib services req d (λ l.
              authorized lib services req.path
                (authorize_user l)
                (services.reply (authorize_user l)))).set_cookie
            ≡ some token
          → Login req token
      of_body (ok l) d k = of_reply l (services.reply (authorize_user l)) d refl k
      of_body (err e) d k = cc
