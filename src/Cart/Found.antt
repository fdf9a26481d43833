-- ===== src/Cart/Found.antt =====
-- The rows that the statements of the cart return, found again by the keys of the tables.
use microservices.Prelude.{
  ◌≡◌, refl, ap, sym, ◌∙◌, inl, inr, Bool, true, false, Option, none, some, [], ◌∷◌, ◌++◌, ==_refl,
  Bool-cases, Option-cases, arith,
}
use microservices.Prelude.Int.{ℤ}
use microservices.Prelude.Rows.{find, any, update}
use microservices.Prelude.Rows.Laws.{find_last, find-update}
use microservices.Grpc.{Uuid, Numeric}
use microservices.Postgres.{uuid_generate_v4}
use microservices.Effect.{Result, ok, Error, World, query, one_row}
use microservices.Effect.Laws.{bind-ok, query-ok, query-cases}
use microservices.Cart.{
  Cart, CartsProduct, Tables, has_user, is_line, with_quantity, new_line, new_cart, is_refused,
  has_line_id, get_cart_by_user_id, create_cart as insert_cart, delete_cart_by_user_id,
  add_or_update_product_in_cart,
}
use microservices.Cart.Server.{
  Env, create_cart, delete_expired_cart_and_create_new_one, unless_expired, cart_is_expired,
  get_or_create_cart_by_user_id,
}

pub insert_cart-ok :
    (user : Uuid) (t : Tables) (c : Cart) (t' : Tables)
    → insert_cart user t ≡ (ok c, t')
    → find (has_user user) t'.carts ≡ some c
unfolding insert_cart
insert_cart-ok user t c t' h =
    let new = new_cart user t.pg in
    let free : any (has_user user) t.carts ≡ false = ground arith in
    let made : c ≡ new = ground arith in
    let after : t'.carts ≡ t.carts ++ new ∷ [] = ground arith in
    rw (after, made) (find_last (has_user user) t.carts new free (==_refl user))

-- The row that the statement returns is the one that the key finds, with the new quantity.
pub add_or_update-ok :
    (cart product : Uuid) (quantity : ℤ) (price : Numeric) (t : Tables) (row : CartsProduct)
    (t' : Tables)
    → add_or_update_product_in_cart cart product quantity price t ≡ (ok row, t')
    → (find (is_line cart product) t'.products ≡ some row)
      × (row.quantity ≡ quantity)
      × (t'.carts ≡ t.carts)
unfolding add_or_update_product_in_cart
add_or_update-ok cart product quantity price t row t' h =
    elim (Bool-cases (is_refused cart quantity price t)) [
      | inl r ↦ let bad = ap (λ x. x.0) (rw r at h) in cc
      | inr r ↦ elim (Bool-cases (any (is_line cart product) t.products)) [
        | inl b ↦
            let rows = update (is_line cart product) (with_quantity quantity) t.products in
            let k = rw (r, b) at h in
            let found = found_row (find (is_line cart product) rows) row (ap (λ x. x.0) k) in
            let after : t'.products ≡ rows = sym (ap (λ x. x.1.products) k) in
            let (old, was, same) =
              find-update (is_line cart product) (with_quantity quantity) t.products row (λ x. refl)
                found in
            (rw after found, ap (λ x. x.quantity) same, sym (ap (λ x. x.1.carts) k))
        | inr b ↦ elim (Bool-cases (any (has_line_id (uuid_generate_v4 t.pg)) t.products)) [
          | inl c ↦ let bad = ap (λ x. x.0) (rw (r, b, c) at h) in cc
          | inr c ↦
              let new = new_line cart product quantity price t.pg in
              let k = rw (r, b, c) at h in
              let made : row ≡ new = same_row new row (ap (λ x. x.0) k) in
              let after : t'.products ≡ t.products ++ new ∷ [] = sym (ap (λ x. x.1.products) k) in
              (
                rw (after, made)
                    (find_last (is_line cart product) t.products new b
                      (rw (==_refl cart, ==_refl product) refl)),
                ap (λ x. x.quantity) made,
                sym (ap (λ x. x.1.carts) k),
              )
        ]
      ]
    ]
  where
    found_row : (o : Option CartsProduct) (row : CartsProduct) → one_row o ≡ ok row → o ≡ some row
    found_row none row h = cc
    found_row (some x) row h = ground arith

    same_row : (x y : CartsProduct) → ◌≡◌ {A = Result Error CartsProduct} (ok x) (ok y) → y ≡ x
    same_row x y h = cc

module _ (env : Env) where
  -- The cart that was found or made is the user's.
  abbrev pub FindsCart : Uuid → Result Error (Cart × Bool) × World Tables → Type 0
  FindsCart user r =
      (cart : Cart) (new : Bool)
      → r.0 ≡ ok (cart, new)
      → find (has_user user) r.1.tables.carts ≡ some cart

  create_cart-FindsCart : (user : Uuid) (w : World Tables) → FindsCart user (create_cart env user w)
  unfolding create_cart
  create_cart-FindsCart user w cart new h =
      let a = bind-ok (query (insert_cart user)) _ w h in
      let found =
        insert_cart-ok user w.tables a.value a.mid.tables (query-ok (insert_cart user) w a.first) in
      let r : ◌≡◌ {A = Result Error (Cart × Bool)} (ok (a.value, true)) (ok (cart, new)) = a.rest in
      let c : a.value ≡ cart = first_of a.value cart true new r in
      rw (ap (λ x. x.1.tables.carts) a.same) (rw c at found)
    where
      first_of :
          (x y : Cart) (b b' : Bool)
          → ◌≡◌ {A = Result Error (Cart × Bool)} (ok (x, b)) (ok (y, b'))
          → x ≡ y
      first_of x y b b' h = let p : ◌≡◌ {A = Cart × Bool} (x, b) (y, b') = cc in ap (λ z. z.0) p

  recreate-FindsCart :
      (user : Uuid) (w : World Tables)
      → FindsCart user (delete_expired_cart_and_create_new_one env user w)
  unfolding delete_expired_cart_and_create_new_one
  recreate-FindsCart user w cart new h =
      let a = bind-ok (query (delete_cart_by_user_id user)) _ w h in
      rw (ap (λ x. x.1.tables.carts) a.same) (create_cart-FindsCart user a.mid cart new a.rest)

  unless_expired-FindsCart :
      (user : Uuid) (cart : Cart) (o : Option Bool) (w : World Tables)
      → find (has_user user) w.tables.carts ≡ some cart
      → FindsCart user (unless_expired env user cart o w)
  unless_expired-FindsCart user cart none w f c new h = cc
  unless_expired-FindsCart user cart (some true) w f c new h = recreate-FindsCart user w c new h
  unless_expired-FindsCart user cart (some false) w f c new h = f ∙ ap some (kept_cart cart c new h)
    where
      kept_cart :
          (x y : Cart) (b : Bool)
          → ◌≡◌ {A = Result Error (Cart × Bool)} (ok (x, false)) (ok (y, b))
          → x ≡ y
      kept_cart x y b h = let p : ◌≡◌ {A = Cart × Bool} (x, false) (y, b) = cc in ap (λ z. z.0) p

  pub get_or_create-FindsCart :
      (user : Uuid) (w : World Tables) → FindsCart user (get_or_create_cart_by_user_id env user w)
  unfolding get_or_create_cart_by_user_id get_cart_by_user_id
  get_or_create-FindsCart user w = elim (query-cases (get_cart_by_user_id user) w) [
    | inl (fs, e) ↦ rw e (λ c new h. cc)
    | inr (fs, e) ↦ elim (Option-cases (find (has_user user) w.tables.carts)) [
      | inl f ↦ rw (e, f) (create_cart-FindsCart user (record { tables = w.tables; faults = fs }))
      | inr (cart, f) ↦
          rw (e, f)
            (unless_expired-FindsCart user cart (cart_is_expired env cart)
              (record { tables = w.tables; faults = fs }) f)
    ]
  ]
