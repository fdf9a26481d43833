-- ===== src/Cart/Invariants.antt =====
-- What every call of the cart service keeps: one cart for a user, and no product row without a cart.
use microservices.Prelude.{
  ◌≡◌, refl, ap, inl, inr, Bool, true, false, ◌&&◌, ◌||◌, List, [], ◌∷◌, ◌++◌, ◌==◌, ==_iff,
  Bool-cases, arith, ◌∙◌,
}
use microservices.Prelude.Int.{ℤ}
use microservices.Prelude.Rows.{find, any, delete}
use microservices.Prelude.Rows.Laws.{any-append, any-update}
use microservices.Grpc.{Uuid, Numeric}
use microservices.Effect.{query}
use microservices.Postgres.{uuid_generate_v4}
use microservices.Effect.Laws.{Keeps, Keeps-query}
use microservices.Cart.{
  Cart, CartsProduct, Tables, has_id, has_user, in_cart, is_line, cascades, in_cart_of,
  with_quantity, new_line, has_line_id, new_cart, is_refused, get_cart_by_user_id, create_cart,
  delete_cart_by_user_id, get_cart_products_by_cart_id, add_or_update_product_in_cart,
  clear_cart_products_by_user_id, remove_product_from_cart,
}

module _ {A : Type 0} where
  pub any-delete : (q p : A → Bool) (xs : List A) → any q xs ≡ false → any q (delete p xs) ≡ false
  any-delete q p [] h = refl
  any-delete q p (x ∷ xs) h = ground (arith, any-delete q p xs)

  -- A row that a deletion removes meets its condition.
  any-deleted :
      (q p : A → Bool) (xs : List A)
      → any q xs ≡ true
      → any q (delete p xs) ≡ false
      → any (λ x. q x && p x) xs ≡ true
  any-deleted q p [] h k = cc
  any-deleted q p (x ∷ xs) h k = ground (arith, any-deleted q p xs)

  delete-all :
      (q p : A → Bool) (xs : List A)
      → ((x : A) → q x ≡ true → p x ≡ true)
      → any q (delete p xs) ≡ false
  delete-all q p [] h = refl
  delete-all q p (x ∷ xs) h = ground (arith, h x, delete-all q p xs h)

-- No two carts of one user.
abbrev pub HasDistinctUsers : List Cart → Type 0
HasDistinctUsers [] = Unit
HasDistinctUsers (c ∷ cs) = (any (has_user c.user_id) cs ≡ false) × HasDistinctUsers cs

-- An id that is no cart's has no product rows.
abbrev pub HasNoOrphans : List Cart → List CartsProduct → Type 0
HasNoOrphans carts rows =
    (id : Uuid) → any (has_id id) carts ≡ false → any (in_cart id) rows ≡ false

pub record IsWellFormed (t : Tables) : Type 0 where
  pub users : HasDistinctUsers t.carts
  pub rows : HasNoOrphans t.carts t.products

HasDistinctUsers-append :
    (cs : List Cart) (c : Cart)
    → any (has_user c.user_id) cs ≡ false
    → HasDistinctUsers cs
    → HasDistinctUsers (cs ++ c ∷ [])
HasDistinctUsers-append [] c h d = (refl, tt)
HasDistinctUsers-append (x ∷ cs) c h (d, ds) = (
  rw any-append (ground (arith, ==_iff x.user_id c.user_id, ==_iff c.user_id x.user_id)),
  HasDistinctUsers-append cs c (ground arith) ds,
)

HasDistinctUsers-delete :
    (p : Cart → Bool) (cs : List Cart) → HasDistinctUsers cs → HasDistinctUsers (delete p cs)
HasDistinctUsers-delete p [] d = tt
HasDistinctUsers-delete p (c ∷ cs) (d, ds) = elim (Bool-cases (p c)) [
  | inl b ↦ rw b (HasDistinctUsers-delete p cs ds)
  | inr b ↦ rw b (any-delete (has_user c.user_id) p cs d, HasDistinctUsers-delete p cs ds)
]

any-append_none :
    {A : Type 0} (q : A → Bool) (xs ys : List A) → any q (xs ++ ys) ≡ false → any q xs ≡ false
any-append_none q xs ys h = ground (arith, any-append q xs ys)

create_cart-keeps :
    (user : Uuid) (t : Tables) → IsWellFormed t → IsWellFormed (create_cart user t).1
unfolding create_cart
create_cart-keeps user t h =
    let new = new_cart user t.pg in
    elim (Bool-cases (any (has_id new.id) t.carts || any (has_user user) t.carts)) [
      | inl b ↦ rw b h
      | inr b ↦ rw b (record {
        users = HasDistinctUsers-append t.carts new (ground arith) h.users;
        rows = λ id k. h.rows id (any-append_none (has_id id) t.carts (new ∷ []) k);
      })
    ]

delete_cart-keeps :
    (user : Uuid) (t : Tables) → IsWellFormed t → IsWellFormed (delete_cart_by_user_id user t).1
unfolding delete_cart_by_user_id
delete_cart-keeps user t h = record {
  users = HasDistinctUsers-delete (has_user user) t.carts h.users;
  rows = λ id k. elim (Bool-cases (any (has_id id) t.carts)) [
    | inl b ↦
        let d = any-deleted (has_id id) (has_user user) t.carts b k in
        delete-all (in_cart id) (cascades user t.carts) t.products
          (λ r e. let s : r.cart_id ≡ id = (==_iff r.cart_id id).0 e in rw s d)
    | inr b ↦ any-delete (in_cart id) (cascades user t.carts) t.products (h.rows id b)
  ];
}

no_other_cart :
    (carts : List Cart) (cart id : Uuid)
    → any (has_id cart) carts ≡ true
    → any (has_id id) carts ≡ false
    → (cart == id) ≡ false
no_other_cart carts cart id h k = elim (Bool-cases (cart == id)) [
  | inl b ↦ let s : cart ≡ id = (==_iff cart id).0 b in absurd (clash s)
  | inr b ↦ b
]
  where
    clash : cart ≡ id → ⊥
    clash s =
        let e : any (has_id cart) carts ≡ any (has_id id) carts =
          ap (λ x. any (has_id x) carts) s in
        cc

add_or_update-keeps :
    (cart product : Uuid) (quantity : ℤ) (price : Numeric) (t : Tables)
    → IsWellFormed t
    → IsWellFormed (add_or_update_product_in_cart cart product quantity price t).1
unfolding add_or_update_product_in_cart is_refused
add_or_update-keeps cart product quantity price t h =
    elim (Bool-cases (is_refused cart quantity price t)) [
      | inl r ↦ rw r h
      | inr r ↦ elim (Bool-cases (any (is_line cart product) t.products)) [
        | inl b ↦
            rw (r, b)
              (record {
                users = h.users;
                rows = λ id k.
                    any-update (in_cart id) (is_line cart product) (with_quantity quantity)
                      t.products (λ x. refl)
                    ∙ h.rows id k;
              })
        | inr b ↦ elim (Bool-cases (any (has_line_id (uuid_generate_v4 t.pg)) t.products)) [
          | inl c ↦ rw (r, b, c) h
          | inr c ↦
              rw (r, b, c)
                (record {
                  users = h.users;
                  rows = λ id k.
                      let new = new_line cart product quantity price t.pg in
                      let other = no_other_cart t.carts cart id (ground arith) k in
                      any-append (in_cart id) t.products (new ∷ []) ∙ rw (h.rows id k, other) refl;
                })
        ]
      ]
    ]

delete_rows-keeps :
    (p : CartsProduct → Bool) (t : Tables)
    → IsWellFormed t
    → IsWellFormed (record t { products = delete p t.products })
delete_rows-keeps p t h = record {
  users = h.users;
  rows = λ id k. any-delete (in_cart id) p t.products (h.rows id k);
}

pub select_cart-Keeps : (user : Uuid) → Keeps IsWellFormed (query (get_cart_by_user_id user))
unfolding get_cart_by_user_id
select_cart-Keeps user = Keeps-query (get_cart_by_user_id user) (λ t h. h)

pub create_cart-Keeps : (user : Uuid) → Keeps IsWellFormed (query (create_cart user))
create_cart-Keeps user = Keeps-query (create_cart user) (create_cart-keeps user)

pub delete_cart-Keeps : (user : Uuid) → Keeps IsWellFormed (query (delete_cart_by_user_id user))
delete_cart-Keeps user = Keeps-query (delete_cart_by_user_id user) (delete_cart-keeps user)

pub select_rows-Keeps :
    (cart : Uuid) → Keeps IsWellFormed (query (get_cart_products_by_cart_id cart))
unfolding get_cart_products_by_cart_id
select_rows-Keeps cart = Keeps-query (get_cart_products_by_cart_id cart) (λ t h. h)

pub add_or_update-Keeps :
    (cart product : Uuid) (quantity : ℤ) (price : Numeric)
    → Keeps IsWellFormed (query (add_or_update_product_in_cart cart product quantity price))
add_or_update-Keeps cart product quantity price =
    Keeps-query (add_or_update_product_in_cart cart product quantity price)
      (add_or_update-keeps cart product quantity price)

pub clear_rows-Keeps :
    (user : Uuid) → Keeps IsWellFormed (query (clear_cart_products_by_user_id user))
unfolding clear_cart_products_by_user_id
clear_rows-Keeps user =
    Keeps-query (clear_cart_products_by_user_id user)
      (λ t h. delete_rows-keeps (in_cart_of (find (has_user user) t.carts)) t h)

pub remove_row-Keeps :
    (user product : Uuid) → Keeps IsWellFormed (query (remove_product_from_cart user product))
unfolding remove_product_from_cart
remove_row-Keeps user product = Keeps-query (remove_product_from_cart user product) (λ t h.
    delete_rows-keeps
      (λ r. in_cart_of (find (has_user user) t.carts) r && (r.product_id == product)) t h)
