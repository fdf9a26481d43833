-- ===== src/Gateway/Tests.antt =====
-- Requests of a user who is logged in, and of one who is not.
use microservices.Prelude.{
  ℕ, suc, ◌≡◌, refl, ◌≤◌, String, true, none, some, List, [], ◌∷◌, arith, str_eq, if◌then◌else◌,
}
use microservices.Prelude.Int.{ℤ, pos, negsuc}
use microservices.Prelude.Rows.{length}
use microservices.Grpc.{live}
use microservices.Effect.{ok, err}
use microservices.Samples.{server as pg}
use microservices.Web.{respond_with_json}
use microservices.Product.{Product, Tables}
use microservices.Product.Queries.{list_products_paginated}
use microservices.Gateway.{
  list_products, get_cart, Claims, Cookie, cookie, no_cookie, Request, Libraries, Services,
  LoginRequest, auth_middleware, validate_token, sanitize_bearer,
}
use microservices.Gateway.Handlers.{get_cart_handler, list_products_handler, login_handler}
use microservices.Gateway.Router.{Route, serve}
use microservices.Gateway.Laws.{HasToken, Within}
use microservices.Gateway.Access.{IsSubject, serve-Within}
use microservices.Gateway.Tokens.{IsRefusal, serve-IsRefusal, Login, login_handler-Login}
use microservices.Gateway.Pages.{list_products_handler-paginated}

opened : Unit {0}
unfolding serve auth_middleware validate_token sanitize_bearer get_cart_handler
    list_products_handler login_handler respond_with_json
opened = tt

abbrev login : LoginRequest
login = record { email = "a@b.c"; password = "secret" }

abbrev library : (String → ℤ) → Libraries
library atoi = record {
  decode_product = λ s. err "product";
  decode_category = λ s. err "category";
  decode_user = λ s. err "user";
  decode_login = λ s. ok login;
  decode_line = λ s. err "line";
  atoi = atoi;
  trim_space = λ s. s;
  to_lower = λ s. s;
  parse_token =
      λ s. if str_eq s "t" then some (record { email = "a@b.c"; subject = "u" }) else none;
  sign_token = λ user email. some "t";
}

abbrev services : Services String
services = record {
  reply = λ c. ok "reply";
  user = λ b. record { id = "u"; username = "ann"; email = "a@b.c" };
  products = λ b. b;
  categories_of = λ b. some b;
  no_categories = "[]";
  user_body = λ u. "user";
  logged_out = "out";
}

abbrev request : Cookie → Request
request k = record {
  path = "/api/carts";
  context = live;
  auth_cookie = k;
  value = "";
  query = λ name. "5";
  body = "";
}

abbrev five : String → ℤ
five s = pos 5

asks_for_own_cart :
    (serve (library five) services Route.get_cart (request (cookie "bearer t"))).calls
    ≡ get_cart "u" ∷ []
unfolding opened
asks_for_own_cart = refl

serve-Within_example :
    Within
      (IsSubject (library five) services (request (cookie "bearer t")))
      (serve (library five) services Route.get_cart (request (cookie "bearer t")))
serve-Within_example =
    serve-Within (library five) services (request (cookie "bearer t")) Route.get_cart

without_token : (c : Claims) → HasToken (library five) (request no_cookie) c → ⊥
without_token c h = let e : no_cookie ≡ cookie h.token = h.sent in cc

serve-IsRefusal_example :
    IsRefusal (serve (library five) services Route.post_orders (request no_cookie))
serve-IsRefusal_example =
    serve-IsRefusal (library five) services Route.post_orders (request no_cookie) refl without_token

sets_cookie : (login_handler (library five) services none (request no_cookie)).set_cookie ≡ some "t"
unfolding opened
sets_cookie = refl

login_handler-Login_example : Login (library five) services (request no_cookie) "t"
login_handler-Login_example =
    login_handler-Login (library five) services none (request no_cookie) "t" sets_cookie

abbrev no_products : Tables
no_products = record { categories = []; products = []; processed = []; outbox = []; pg = pg }

list_products_handler-paginated_example :
    (limit offset : ℕ) × ((list_products_handler
        (library five)
        services
        none
        (request no_cookie)).calls
      ≡ list_products (pos (suc limit)) (pos offset) ∷ [])
    × (rows : List Product) × ((list_products_paginated
          (λ a b. true)
          (pos (suc limit))
          (pos offset)
          no_products).0
        ≡ ok rows)
    × (length rows ≤ suc limit)
list_products_handler-paginated_example =
    list_products_handler-paginated (library five) services none (request no_cookie) (λ a b. true)
      no_products (omega arith) (omega arith)

abbrev two_to_31 : String → ℤ
two_to_31 s = pos 2147483648

-- A limit of 2 ^ 31 is forwarded as a negative number.
limit_wraps :
    (list_products_handler (library two_to_31) services none (request no_cookie)).calls
    ≡ list_products (negsuc 2147483647) (negsuc 2147483647) ∷ []
unfolding opened
limit_wraps = refl
