-- ===== src/Cart/Server.antt =====
-- cart-service/internal/grpc: the handlers of the cart. Redis is the answer of one lookup; the
-- goroutines that fill or clear its entries after a reply are not modelled.
use microservices.Prelude.{
  ℕ, suc, String, ◌+◌, ◌-◌, ◌*◌, ◌%◌, ◌^◌, Bool, true, false, Option, none, some, List, [], ◌∷◌,
  map, if◌then◌else◌, ◌==◌, ltb, str_eq,
}
use microservices.Prelude.Int.{ℤ, pos, negsuc}
use microservices.Grpc.{
  Platform, Uuid, Float64, Code, invalid_argument, not_found, aborted, internal, ContextState,
}
use microservices.Effect.{
  Result, ok, err, Error, no_rows, invalid, World, Action, ◌>>=◌, ◌>>◌, pure, raise, require, guard,
  or_else, query, check_live, to_internal,
}
use microservices.Order.Repository.{CartProduct}
use microservices.Order.Server.{GetCartResponse, is_empty}
use microservices.Cart.{
  Cart, CartsProduct, Tables, get_cart_by_user_id, create_cart as insert_cart,
  delete_cart_by_user_id, get_cart_products_by_cart_id, add_or_update_product_in_cart,
  clear_cart_products_by_user_id, remove_product_from_cart as delete_line,
}

-- The struct Product of the fetcher.
pub record ProductInfo : Type 0 where
  pub id : String
  pub name : String
  pub description : String
  pub price : Float64

-- What the handlers read outside the database: the variable CART_TTL_HOURS, the clock in
-- nanoseconds, the answer of the cache, and the product service's map from ids to products. `atoi` is
-- strconv.Atoi; the last three are float64(q), and * and + on float64.
pub record Env : Type 0 where
  pub cart_ttl_hours : String
  pub now : ℕ
  pub cached : String → Option GetCartResponse
  pub get_products_by_ids : List String → Result Code (String → Option ProductInfo)
  pub atoi : String → Option ℤ
  pub float_of : ℤ → Float64
  pub float_mul : Float64 → Float64 → Float64
  pub float_add : Float64 → Float64 → Float64

-- An int64 product wraps around.
abbrev pub wrap64 : ℤ → ℤ
wrap64 (pos n) = let m = n % 2 ^ 64 in if ltb m (2 ^ 63) then pos m else negsuc (2 ^ 64 - suc m)
wrap64 (negsuc n) = let m = n % 2 ^ 64 in if ltb m (2 ^ 63) then negsuc m else pos (2 ^ 64 - suc m)

-- time.Duration(ttlHours) * time.Hour
unfoldable pub hours : ℤ → ℤ
hours (pos n) = wrap64 (pos (n * 3600000000000))
hours (negsuc n) = wrap64 (negsuc (suc n * 3600000000000 - 1))

-- time.Now().After(created.Add(d))
abbrev pub is_after : ℕ → ℕ → ℤ → Bool
is_after now created (pos d) = ltb (created + d) now
is_after now created (negsuc d) = ltb created (now + suc d)

abbrev pub is_zero : ℤ → Bool
is_zero (pos n) = n == 0
is_zero (negsuc n) = false

module _ (env : Env) where
  abbrev pub ttl_text : String
  ttl_text = if str_eq env.cart_ttl_hours "" then "168" else env.cart_ttl_hours

  -- `none`: CART_TTL_HOURS is no number.
  unfoldable pub cart_is_expired : Cart → Option Bool
  unfolding hours
  cart_is_expired cart = elim (env.atoi ttl_text) [
    | none ↦ none
    | some ttl ↦
        if is_zero ttl then some false else some (is_after env.now cart.created_at (hours ttl))
  ]

  unfoldable pub create_cart : Uuid → Action Tables Error (Cart × Bool)
  create_cart user = do cart ← query (insert_cart user); pure (cart, true)

  unfoldable pub delete_expired_cart_and_create_new_one : Uuid → Action Tables Error (Cart × Bool)
  delete_expired_cart_and_create_new_one user = do
    query (delete_cart_by_user_id user)
    create_cart user

  abbrev pub unless_expired : Uuid → Cart → Option Bool → Action Tables Error (Cart × Bool)
  unless_expired user cart none = raise invalid
  unless_expired user cart (some true) = delete_expired_cart_and_create_new_one user
  unless_expired user cart (some false) = pure (cart, false)

  abbrev pub or_create :
      Uuid → Result Error Cart × World Tables → Result Error (Cart × Bool) × World Tables
  or_create user (err no_rows, w) = create_cart user w
  or_create user (err e, w) = (err e, w)
  or_create user (ok cart, w) = unless_expired user cart (cart_is_expired cart) w

  -- The cart, and whether it is new.
  unfoldable pub get_or_create_cart_by_user_id : Uuid → Action Tables Error (Cart × Bool)
  get_or_create_cart_by_user_id user w = or_create user (query (get_cart_by_user_id user) w)

pub record AddProductToCartRequest : Type 0 where
  pub user_id : String
  pub product_id : String
  pub quantity : ℤ

pub record AddProductToCartResponse : Type 0 where
  pub id : String
  pub cart_id : String
  pub product_id : String
  pub quantity : ℤ
  pub price : Float64

abbrev pub reply : {A : Type 0} → Result Code A → Action Tables Code A
reply r w = (r, w)

module _ (pf : Platform) (env : Env) where
  abbrev pub cart_of : Uuid → Action Tables Code (Cart × Bool)
  cart_of user = or_else (get_or_create_cart_by_user_id env user) to_internal

  -- A new cart must be empty.
  unfoldable pub verify_cart_state : Cart → Bool → Action Tables Code (Unit {0})
  verify_cart_state cart false = pure tt
  verify_cart_state cart true = do
    existing ← or_else (query (get_cart_products_by_cart_id cart.id)) to_internal
    guard (is_empty existing) aborted

  abbrev pub line_reply : CartsProduct → Float64 → AddProductToCartResponse
  line_reply line price = record {
    id = pf.uuid_string line.id;
    cart_id = pf.uuid_string line.cart_id;
    product_id = pf.uuid_string line.product_id;
    quantity = line.quantity;
    price = price;
  }

  -- The last part of AddProductToCart, from the product that was fetched on.
  unfoldable pub store_product :
      Cart → AddProductToCartRequest → ProductInfo → Action Tables Code AddProductToCartResponse
  store_product cart req product = do
    id ← require (pf.scan_uuid req.product_id) invalid_argument
    price ← require (pf.scan_money product.price) internal
    line ← or_else (query (add_or_update_product_in_cart cart.id id req.quantity price)) to_internal
    pure (line_reply line product.price)

  -- The part before it, from the cart on.
  unfoldable pub add_to_cart :
      Cart → Bool → AddProductToCartRequest → Action Tables Code AddProductToCartResponse
  add_to_cart cart new req = do
    verify_cart_state cart new
    products ← reply (env.get_products_by_ids (req.product_id ∷ []))
    product ← require (products req.product_id) not_found
    store_product cart req product

  unfoldable pub add_product_to_cart :
      ContextState → AddProductToCartRequest → Action Tables Code AddProductToCartResponse
  add_product_to_cart ctx req = do
    check_live pf ctx
    user ← require (pf.scan_uuid req.user_id) invalid_argument
    found ← cart_of user
    add_to_cart found.0 found.1 req

  abbrev pub unless_recreated : Bool → Action Tables Code (Unit {0}) → Action Tables Code (Unit {0})
  unless_recreated true m = pure tt
  unless_recreated false m = m

  unfoldable pub clear_cart : ContextState → String → Action Tables Code (Unit {0})
  clear_cart ctx user_id = do
    check_live pf ctx
    user ← require (pf.scan_uuid user_id) invalid_argument
    found ← cart_of user
    unless_recreated found.1 (or_else (query (clear_cart_products_by_user_id user)) to_internal)

  unfoldable pub delete_cart : ContextState → String → Action Tables Code (Unit {0})
  delete_cart ctx user_id = do
    check_live pf ctx
    user ← require (pf.scan_uuid user_id) invalid_argument
    found ← cart_of user
    unless_recreated found.1 (or_else (query (delete_cart_by_user_id user)) to_internal)

  abbrev pub remove_line : Uuid → String → Action Tables Code (Unit {0})
  remove_line user product_id = do
    product ← require (pf.scan_uuid product_id) invalid_argument
    or_else (query (delete_line user product)) to_internal

  unfoldable pub remove_product_from_cart :
      ContextState → String → String → Action Tables Code (Unit {0})
  remove_product_from_cart ctx user_id product_id = do
    check_live pf ctx
    user ← require (pf.scan_uuid user_id) invalid_argument
    found ← cart_of user
    unless_recreated found.1 (remove_line user product_id)

  abbrev pub add_line :
      CartProduct → Option (List CartProduct × Float64) → Option (List CartProduct × Float64)
  add_line line none = none
  add_line line (some (lines, total)) = some (line ∷ lines, total)

  abbrev pub line_of : ProductInfo → Float64 → ℤ → CartProduct
  line_of product price quantity = record {
    product_id = product.id;
    name = product.name;
    description = product.description;
    price = price;
    quantity = quantity;
  }

  -- The float64 of an invalid value is 0.
  abbrev pub price_or_zero : Option Float64 → Float64
  price_or_zero none = 0
  price_or_zero (some x) = x

  -- The loop over the rows, with the total so far; rows of unknown products are left out.
  unfoldable pub cart_lines :
      (String → Option ProductInfo)
      → Float64
      → List CartsProduct
      → Option (List CartProduct × Float64)
  cart_lines products total [] = some ([], total)
  cart_lines products total (row ∷ rows) = elim (products (pf.uuid_string row.product_id)) [
    | none ↦ cart_lines products total rows
    | some product ↦ elim (pf.float64_value row.price) [
      | none ↦ none
      | some value ↦ add_line (line_of product (price_or_zero value) row.quantity) (
          cart_lines products
            (env.float_add total (env.float_mul (price_or_zero value) (env.float_of row.quantity)))
            rows)
    ]
  ]

  abbrev pub cart_reply : Cart → List CartProduct × Float64 → GetCartResponse
  cart_reply cart lines = record {
    id = pf.uuid_string cart.id;
    user_id = pf.uuid_string cart.user_id;
    products = lines.0;
    total_price = lines.1;
  }

  abbrev pub get_stored_cart : String → Action Tables Code GetCartResponse
  get_stored_cart user_id = do
    user ← require (pf.scan_uuid user_id) invalid_argument
    found ← cart_of user
    rows ← or_else (query (get_cart_products_by_cart_id found.0.id)) to_internal
    products ←
        or_else (reply (env.get_products_by_ids (map (λ r. pf.uuid_string r.product_id) rows)))
          (λ c. internal)
    lines ← require (cart_lines products 0 rows) internal
    pure (cart_reply found.0 lines)

  abbrev pub unless_cached :
      Option GetCartResponse
      → Action Tables Code GetCartResponse
      → Action Tables Code GetCartResponse
  unless_cached none m = m
  unless_cached (some r) m = pure r

  unfoldable pub get_cart : ContextState → String → Action Tables Code GetCartResponse
  get_cart ctx user_id = do
    check_live pf ctx
    unless_cached (env.cached user_id) (get_stored_cart user_id)
