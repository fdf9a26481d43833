-- ===== src/Cart/Lookup.antt =====
-- What AddProductToCart stores, read back by the keys of the tables.
use microservices.Prelude.{◌≡◌, ap, sym, ◌∙◌, Bool, true, false, some, List, [], ◌∷◌}
use microservices.Prelude.Rows.{find}
use microservices.Grpc.{
  Platform, Uuid, Numeric, Float64, Code, ContextState, invalid_argument, not_found, internal,
  aborted,
}
use microservices.Effect.{Result, ok, World, query, require, check_live, or_else, to_internal}
use microservices.Effect.Laws.{rethrow-ok, guard-ok, bind-ok, require-ok, query-ok}
use microservices.Cart.{
  Cart, CartsProduct, Tables, has_user, is_line, get_cart_products_by_cart_id,
  add_or_update_product_in_cart,
}
use microservices.Order.Server.{is_empty}
use microservices.Cart.Server.{
  Env, get_or_create_cart_by_user_id, cart_of, verify_cart_state, add_product_to_cart, add_to_cart,
  store_product, ProductInfo, AddProductToCartRequest, AddProductToCartResponse, reply, line_reply,
}
use microservices.Cart.Found.{add_or_update-ok, get_or_create-FindsCart}

select_rows-tables :
    (cart : Uuid) (w w' : World Tables) (rows : List CartsProduct)
    → query (get_cart_products_by_cart_id cart) w ≡ (ok rows, w')
    → w'.tables ≡ w.tables
unfolding get_cart_products_by_cart_id
select_rows-tables cart w w' rows h =
    sym (ap (λ x. x.1) (query-ok (get_cart_products_by_cart_id cart) w h))

module _ (pf : Platform) (env : Env) where
  verify-tables :
      (cart : Cart) (new : Bool) (w w' : World Tables) (u : Unit {0})
      → verify_cart_state pf env cart new w ≡ (ok u, w')
      → w'.tables ≡ w.tables
  unfolding verify_cart_state
  verify-tables cart false w w' u h = ap (λ r. r.1.tables) (sym h)
  verify-tables cart true w w' u h =
      let a =
        bind-ok (or_else (query (get_cart_products_by_cart_id cart.id)) to_internal) _ w
          (ap (λ r. r.0) h) in
      let rows =
        rethrow-ok to_internal (query (get_cart_products_by_cart_id cart.id) w) a.value a.mid
          a.first in
      let g = guard-ok (is_empty a.value) aborted a.mid w' u (sym a.same ∙ h) in
      ap (λ x. x.tables) (sym g.1) ∙ select_rows-tables cart.id w a.mid a.value rows

  reply_of :
      (x y : AddProductToCartResponse)
      → ◌≡◌ {A = Result Code AddProductToCartResponse} (ok x) (ok y)
      → y ≡ x
  reply_of x y h = cc

  -- The line of a product in a cart, with the quantity of the request.
  pub record InCart (cart : Cart) (req : AddProductToCartRequest) (t : Tables)
      (r : AddProductToCartResponse) : Type 0 where
    pub product : Uuid
    pub row : CartsProduct
    pub product_id : pf.scan_uuid req.product_id ≡ some product
    pub stored : find (is_line cart.id product) t.products ≡ some row
    pub quantity : row.quantity ≡ req.quantity
    pub replied : r.quantity ≡ req.quantity

  stored_line :
      (req : AddProductToCartRequest) (product : Uuid) (cart : Cart) (row : CartsProduct)
      (t1 t2 t3 t4 : Tables) (price : Numeric) (amount : Float64) (r : AddProductToCartResponse)
      → pf.scan_uuid req.product_id ≡ some product
      → t2 ≡ t1
      → add_or_update_product_in_cart cart.id product req.quantity price t2 ≡ (ok row, t3)
      → t4 ≡ t3
      → r ≡ line_reply pf env row amount
      → InCart cart req t4 r × (t4.carts ≡ t1.carts)
  stored_line req product cart row t1 t2 t3 t4 price amount r p e2 done e4 k =
      let (stored, quantity, carts) =
        add_or_update-ok cart.id product req.quantity price t2 row t3 done in
      (
        rw (e4, k)
            (record {
              product = product;
              row = row;
              product_id = p;
              stored = stored;
              quantity = quantity;
              replied = quantity;
            }),
        ap (λ x. x.carts) e4 ∙ carts ∙ ap (λ x. x.carts) e2,
      )

  store_product-InCart :
      (cart : Cart) (req : AddProductToCartRequest) (info : ProductInfo) (w : World Tables)
      (r : AddProductToCartResponse)
      → (store_product pf env cart req info w).0 ≡ ok r
      → InCart cart req (store_product pf env cart req info w).1.tables r
        × ((store_product pf env cart req info w).1.tables.carts ≡ w.tables.carts)
  unfolding store_product
  store_product-InCart cart req info w r h =
      let g = bind-ok (require (pf.scan_uuid req.product_id) invalid_argument) _ w h in
      let p = bind-ok (require (pf.scan_money info.price) internal) _ g.mid g.rest in
      let q =
        bind-ok
          (or_else (query (add_or_update_product_in_cart cart.id g.value req.quantity p.value))
            to_internal)
          _ p.mid p.rest in
      let (product, w2) = require-ok (pf.scan_uuid req.product_id) invalid_argument w g.first in
      let (priced, w3) = require-ok (pf.scan_money info.price) internal g.mid p.first in
      stored_line req g.value cart q.value w.tables p.mid.tables q.mid.tables
        (store_product pf env cart req info w).1.tables p.value info.price r product
        (ap (λ x. x.tables) (sym (w2 ∙ w3)))
        (query-ok _ p.mid (rethrow-ok to_internal _ q.value q.mid q.first))
        (ap (λ x. x.1.tables) (g.same ∙ p.same ∙ q.same)) (reply_of _ r q.rest)

  add_to_cart-InCart :
      (cart : Cart) (new : Bool) (req : AddProductToCartRequest) (w : World Tables)
      (r : AddProductToCartResponse)
      → (add_to_cart pf env cart new req w).0 ≡ ok r
      → InCart cart req (add_to_cart pf env cart new req w).1.tables r
        × ((add_to_cart pf env cart new req w).1.tables.carts ≡ w.tables.carts)
  unfolding add_to_cart
  add_to_cart-InCart cart new req w r h =
      let d = bind-ok (verify_cart_state pf env cart new) _ w h in
      let e = bind-ok (reply (env.get_products_by_ids (req.product_id ∷ []))) _ d.mid d.rest in
      let f = bind-ok (require (e.value req.product_id) not_found) _ e.mid e.rest in
      let (known, w1) = require-ok (e.value req.product_id) not_found e.mid f.first in
      let (line, carts) = store_product-InCart cart req f.value f.mid r f.rest in
      let same = d.same ∙ e.same ∙ f.same in
      (
        rw same line,
        ap (λ x. x.1.tables.carts) same
            ∙ carts
            ∙ ap (λ x. x.tables.carts) (sym w1)
            ∙ ap (λ x. x.1.tables.carts) (sym e.first)
            ∙ ap (λ x. x.carts) (verify-tables cart new w d.mid d.value d.first),
      )

  -- After AddProductToCart succeeds, the user has a cart, whichever it was, and the product's line
  -- in it, found by the keys of the tables, has the quantity of the request, which is also replied.
  pub add_product_to_cart-InCart :
      (ctx : ContextState) (req : AddProductToCartRequest) (w : World Tables)
      (r : AddProductToCartResponse)
      → (add_product_to_cart pf env ctx req w).0 ≡ ok r
      → (user : Uuid) × (cart : Cart) × (pf.scan_uuid req.user_id ≡ some user)
        × (find (has_user user) (add_product_to_cart pf env ctx req w).1.tables.carts ≡ some cart)
        × InCart cart req (add_product_to_cart pf env ctx req w).1.tables r
  unfolding add_product_to_cart
  add_product_to_cart-InCart ctx req w r h =
      let a = bind-ok (check_live pf ctx) _ w h in
      let b = bind-ok (require (pf.scan_uuid req.user_id) invalid_argument) _ a.mid a.rest in
      let c = bind-ok (cart_of pf env b.value) _ b.mid b.rest in
      let (user, _) = require-ok (pf.scan_uuid req.user_id) invalid_argument a.mid b.first in
      let got =
        rethrow-ok to_internal (get_or_create_cart_by_user_id env b.value b.mid) c.value c.mid
          c.first in
      let (line, carts) = add_to_cart-InCart c.value.0 c.value.1 req c.mid r c.rest in
      let found =
        get_or_create-FindsCart env b.value b.mid c.value.0 c.value.1 (ap (λ x. x.0) got) in
      let same = a.same ∙ b.same ∙ c.same in
      (b.value, c.value.0, user, rw (same, carts) (rw got at found), rw same line)
