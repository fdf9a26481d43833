-- ===== src/Cart/Calls.antt =====
-- Every call of the cart service keeps its tables well formed, and what the calls of one cart do.
use microservices.Prelude.{Bool, true, false, Option, none, some, String, [], ◌∷◌, map}
use microservices.Grpc.{Platform, Uuid, Code, ContextState, invalid_argument, not_found, internal}
use microservices.Effect.{
  Result, ok, err, Error, no_rows, invalid, failed, World, Action, query, to_internal,
}
use microservices.Effect.Laws.{
  Keeps, Keeps-pure, Keeps-require, Keeps-guard, Keeps-bind, Keeps-or_else, Keeps-check_live,
}
use microservices.Order.Server.{GetCartResponse}
use microservices.Cart.{Cart, Tables, get_cart_by_user_id}
use microservices.Cart.Server.{
  Env, create_cart, delete_expired_cart_and_create_new_one, unless_expired, or_create,
  cart_is_expired, get_or_create_cart_by_user_id, cart_of, verify_cart_state, add_product_to_cart,
  add_to_cart, store_product, clear_cart, delete_cart, remove_product_from_cart, unless_recreated,
  get_cart, get_stored_cart, unless_cached, AddProductToCartRequest, reply, line_reply, cart_reply,
  cart_lines,
}
use microservices.Cart.Invariants.{
  IsWellFormed, select_cart-Keeps, create_cart-Keeps, delete_cart-Keeps, select_rows-Keeps,
  add_or_update-Keeps, clear_rows-Keeps, remove_row-Keeps,
}

module _ (env : Env) where
  new_cart-Keeps : (user : Uuid) → Keeps IsWellFormed (create_cart env user)
  unfolding create_cart
  new_cart-Keeps user = Keeps-bind _ _ (create_cart-Keeps user) (λ cart. Keeps-pure (cart, true))

  recreate-Keeps :
      (user : Uuid) → Keeps IsWellFormed (delete_expired_cart_and_create_new_one env user)
  unfolding delete_expired_cart_and_create_new_one
  recreate-Keeps user = Keeps-bind _ _ (delete_cart-Keeps user) (λ u. new_cart-Keeps user)

  unless_expired-Keeps :
      (user : Uuid) (cart : Cart) (o : Option Bool)
      → Keeps IsWellFormed (unless_expired env user cart o)
  unless_expired-Keeps user cart none = record { at = λ w h. h }
  unless_expired-Keeps user cart (some true) = recreate-Keeps user
  unless_expired-Keeps user cart (some false) = Keeps-pure (cart, false)

  or_create-keeps :
      (user : Uuid) (r : Result Error Cart × World Tables)
      → IsWellFormed r.1.tables
      → IsWellFormed (or_create env user r).1.tables
  or_create-keeps user (err no_rows, w) h = (new_cart-Keeps user).at w h
  or_create-keeps user (err invalid, w) h = h
  or_create-keeps user (err failed, w) h = h
  or_create-keeps user (ok cart, w) h =
      (unless_expired-Keeps user cart (cart_is_expired env cart)).at w h

  get_or_create-Keeps : (user : Uuid) → Keeps IsWellFormed (get_or_create_cart_by_user_id env user)
  unfolding get_or_create_cart_by_user_id
  get_or_create-Keeps user = record {
    at = λ w h.
        or_create-keeps user (query (get_cart_by_user_id user) w) ((select_cart-Keeps user).at w h);
  }

reply-Keeps : {A : Type 0} (r : Result Code A) → Keeps IsWellFormed (reply r)
reply-Keeps r = record { at = λ w h. h }

module _ (pf : Platform) (env : Env) where
  cart_of-Keeps : (user : Uuid) → Keeps IsWellFormed (cart_of pf env user)
  cart_of-Keeps user = Keeps-or_else _ to_internal (get_or_create-Keeps env user)

  verify-Keeps : (cart : Cart) (new : Bool) → Keeps IsWellFormed (verify_cart_state pf env cart new)
  unfolding verify_cart_state
  verify-Keeps cart false = Keeps-pure tt
  verify-Keeps cart true =
      Keeps-bind _ _ (Keeps-or_else _ to_internal (select_rows-Keeps cart.id))
        (λ rows. Keeps-guard _ _)

  unless_recreated-Keeps :
      (b : Bool) (m : Action Tables Code (Unit {0}))
      → Keeps IsWellFormed m
      → Keeps IsWellFormed (unless_recreated pf env b m)
  unless_recreated-Keeps true m k = Keeps-pure tt
  unless_recreated-Keeps false m k = k

  add_product_to_cart-Keeps :
      (ctx : ContextState) (req : AddProductToCartRequest)
      → Keeps IsWellFormed (add_product_to_cart pf env ctx req)
  unfolding add_product_to_cart add_to_cart store_product
  add_product_to_cart-Keeps ctx req = Keeps-bind _ _ (Keeps-check_live pf ctx) (λ u.
      Keeps-bind _ _ (Keeps-require (pf.scan_uuid req.user_id) invalid_argument) (λ user.
        Keeps-bind _ _ (cart_of-Keeps user) (λ found.
          Keeps-bind _ _ (verify-Keeps found.0 found.1) (λ v.
            Keeps-bind _ _ (reply-Keeps (env.get_products_by_ids (req.product_id ∷ [])))
              (λ products.
                Keeps-bind _ _ (Keeps-require (products req.product_id) not_found) (λ product.
                  Keeps-bind _ _ (Keeps-require (pf.scan_uuid req.product_id) invalid_argument)
                    (λ id.
                      Keeps-bind _ _ (Keeps-require (pf.scan_money product.price) internal)
                        (λ price.
                          Keeps-bind _ _
                            (Keeps-or_else _ to_internal
                              (add_or_update-Keeps found.0.id id req.quantity price))
                            (λ line. Keeps-pure (line_reply pf env line product.price))))))))))

  clear_cart-Keeps :
      (ctx : ContextState) (user_id : String) → Keeps IsWellFormed (clear_cart pf env ctx user_id)
  unfolding clear_cart
  clear_cart-Keeps ctx user_id = Keeps-bind _ _ (Keeps-check_live pf ctx) (λ u.
      Keeps-bind _ _ (Keeps-require (pf.scan_uuid user_id) invalid_argument) (λ user.
        Keeps-bind _ _ (cart_of-Keeps user) (λ found.
          unless_recreated-Keeps found.1 _ (Keeps-or_else _ to_internal (clear_rows-Keeps user)))))

  drop_cart-Keeps :
      (ctx : ContextState) (user_id : String) → Keeps IsWellFormed (delete_cart pf env ctx user_id)
  unfolding delete_cart
  drop_cart-Keeps ctx user_id = Keeps-bind _ _ (Keeps-check_live pf ctx) (λ u.
      Keeps-bind _ _ (Keeps-require (pf.scan_uuid user_id) invalid_argument) (λ user.
        Keeps-bind _ _ (cart_of-Keeps user) (λ found.
          unless_recreated-Keeps found.1 _ (Keeps-or_else _ to_internal (delete_cart-Keeps user)))))

  remove_product_from_cart-Keeps :
      (ctx : ContextState) (user_id product_id : String)
      → Keeps IsWellFormed (remove_product_from_cart pf env ctx user_id product_id)
  unfolding remove_product_from_cart
  remove_product_from_cart-Keeps ctx user_id product_id =
      Keeps-bind _ _ (Keeps-check_live pf ctx) (λ u.
        Keeps-bind _ _ (Keeps-require (pf.scan_uuid user_id) invalid_argument) (λ user.
          Keeps-bind _ _ (cart_of-Keeps user) (λ found. unless_recreated-Keeps found.1 _ (
            Keeps-bind _ _ (Keeps-require (pf.scan_uuid product_id) invalid_argument)
              (λ product. Keeps-or_else _ to_internal (remove_row-Keeps user product))))))

  get_stored_cart-Keeps : (user_id : String) → Keeps IsWellFormed (get_stored_cart pf env user_id)
  get_stored_cart-Keeps user_id =
      Keeps-bind _ _ (Keeps-require (pf.scan_uuid user_id) invalid_argument) (λ user.
        Keeps-bind _ _ (cart_of-Keeps user) (λ found.
          Keeps-bind _ _ (Keeps-or_else _ to_internal (select_rows-Keeps found.0.id)) (λ rows.
            Keeps-bind _ _
              (Keeps-or_else _ (λ c. internal)
                (reply-Keeps
                  (env.get_products_by_ids (map (λ r. pf.uuid_string r.product_id) rows))))
              (λ products.
                Keeps-bind _ _ (Keeps-require (cart_lines pf env products 0 rows) internal)
                  (λ lines. Keeps-pure (cart_reply pf env found.0 lines))))))

  unless_cached-Keeps :
      (o : Option GetCartResponse) (m : Action Tables Code GetCartResponse)
      → Keeps IsWellFormed m
      → Keeps IsWellFormed (unless_cached pf env o m)
  unless_cached-Keeps none m k = k
  unless_cached-Keeps (some r) m k = Keeps-pure r

  get_cart-Keeps :
      (ctx : ContextState) (user_id : String) → Keeps IsWellFormed (get_cart pf env ctx user_id)
  unfolding get_cart
  get_cart-Keeps ctx user_id =
      Keeps-bind _ _ (Keeps-check_live pf ctx)
        (λ u. unless_cached-Keeps (env.cached user_id) _ (get_stored_cart-Keeps user_id))

  -- Every call of the cart service, whatever it returns and whatever fails, keeps the tables well
  -- formed: no user has two carts, and no product row is left without a cart.
  pub calls-IsWellFormed :
      (ctx : ContextState) (user_id product_id : String) (req : AddProductToCartRequest)
      (w : World Tables)
      → IsWellFormed w.tables
      → IsWellFormed (add_product_to_cart pf env ctx req w).1.tables
        × IsWellFormed (remove_product_from_cart pf env ctx user_id product_id w).1.tables
        × IsWellFormed (clear_cart pf env ctx user_id w).1.tables
        × IsWellFormed (delete_cart pf env ctx user_id w).1.tables
        × IsWellFormed (get_cart pf env ctx user_id w).1.tables
  calls-IsWellFormed ctx user_id product_id req w h = (
    (add_product_to_cart-Keeps ctx req).at w h,
    (remove_product_from_cart-Keeps ctx user_id product_id).at w h,
    (clear_cart-Keeps ctx user_id).at w h,
    (drop_cart-Keeps ctx user_id).at w h,
    (get_cart-Keeps ctx user_id).at w h,
  )
