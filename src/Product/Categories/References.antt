-- ===== src/Product/Categories/References.antt =====
-- No product refers to a category that is missing.
use microservices.Prelude.Lists.{All, All-append, All-map}
use microservices.Prelude.{
  ◌≡◌, refl, ap, sym, ◌∙◌, inl, inr, Bool, true, false, ◌||◌, not, String, Option, some, List, [],
  ◌∷◌, map, ◌==◌, ==_iff, Bool-cases, Option-cases, arith, str_eq,
}
use microservices.Prelude.Rows.{any, update, delete}
use microservices.Prelude.Rows.Laws.{any-append, any-update}
use microservices.Grpc.{Platform, Uuid, Code, invalid_argument, ContextState}
use microservices.Effect.{Error, Action}
use microservices.Effect.Laws.{
  Keeps, Keeps-pure, Keeps-require, Keeps-guard, Keeps-bind, Keeps-or_else, Keeps-query,
  Keeps-check_live,
}
use microservices.Postgres.{uuid_generate_v4}
use microservices.Product.{Product, Category, Tables}
use microservices.Product.Queries.{
  ProductParams, Columns, is_category, has_id, checked, new_product, with_params, create_product,
  update_product, delete_product,
}
use microservices.Product.Categories.{
  State, CategoryRequest, GrpcProductCategory, new_category, create_product_category,
  update_product_category, delete_product_category, without_category, with_names, on_tables, spawn,
  clears, create_category, update_category, delete_category, optional_text, category_error, uncache,
  delete_product_categories_cache, to_grpc_product_category,
}

abbrev pub Refers : List Category → Product → Type 0
Refers cs p = (c : Uuid) → p.category_id ≡ some c → any (is_category c) cs ≡ true

abbrev pub HasCategories : Tables → Type 0
HasCategories t = All (Refers t.categories) t.products

All-mapped :
    {A : Type 0} (P Q : A → Type 0) (g : A → A) (xs : List A)
    → ((x : A) → P x → Q (g x))
    → All P xs
    → All Q (map g xs)
All-mapped P Q g [] f h = tt
All-mapped P Q g (x ∷ xs) f h = (f x h.0, All-mapped P Q g xs f h.1)

All-update :
    {A : Type 0} (P : A → Type 0) (t : A → Bool) (g : A → A) (xs : List A)
    → ((x : A) → P (g x))
    → All P xs
    → All P (update t g xs)
All-update P t g [] f h = tt
All-update P t g (x ∷ xs) f h = elim (Bool-cases (t x)) [
  | inl b ↦ rw b (f x, All-update P t g xs f h.1)
  | inr b ↦ rw b (h.0, All-update P t g xs f h.1)
]

All-delete :
    {A : Type 0} (P : A → Type 0) (t : A → Bool) (xs : List A) → All P xs → All P (delete t xs)
All-delete P t [] h = tt
All-delete P t (x ∷ xs) h = elim (Bool-cases (t x)) [
  | inl b ↦ rw b (All-delete P t xs h.1)
  | inr b ↦ rw b (h.0, All-delete P t xs h.1)
]

-- The checks of a row find its category.
checked-category :
    (params : ProductParams) (t : Tables) (columns : Columns)
    → checked params t ≡ some columns
    → any (is_category params.category_id) t.categories ≡ true
unfolding checked
checked-category params t columns h =
    elim (Bool-cases (any (is_category params.category_id) t.categories)) [
      | inl b ↦ b
      | inr b ↦ let bad = rw b at h in cc
    ]

known_category :
    (cs : List Category) (c : Uuid) (p : Product)
    → p.category_id ≡ some c
    → any (is_category c) cs ≡ true
    → Refers cs p
known_category cs c p h k d e =
    let same : some c ≡ some d = sym h ∙ e in let is : c ≡ d = cc in rw is at k

pub create_product-HasCategories :
    (params : ProductParams) (t : Tables)
    → HasCategories t
    → HasCategories (create_product params t).1
unfolding create_product
create_product-HasCategories params t h = elim (Option-cases (checked params t)) [
  | inl n ↦ rw n h
  | inr (columns, n) ↦ elim (Bool-cases (any (has_id (uuid_generate_v4 t.pg)) t.products)) [
    | inl b ↦ rw (n, b) h
    | inr b ↦
        rw (n, b)
          (All-append _ t.products (new_product params columns t.pg ∷ []) h (
            known_category t.categories params.category_id (new_product params columns t.pg) refl
                (checked-category params t columns n),
            tt,
          ))
  ]
]

pub update_product-HasCategories :
    (id : Uuid) (params : ProductParams) (t : Tables)
    → HasCategories t
    → HasCategories (update_product id params t).1
unfolding update_product
update_product-HasCategories id params t h = elim (Bool-cases (any (has_id id) t.products)) [
  | inr b ↦ rw b h
  | inl b ↦ elim (Option-cases (checked params t)) [
    | inl n ↦ rw (b, n) h
    | inr (columns, n) ↦
        rw (b, n)
          (All-update _ (has_id id) (with_params params columns t.pg.now) t.products
            (λ p.
              known_category t.categories params.category_id (with_params params columns t.pg.now p)
                refl (checked-category params t columns n))
            h)
  ]
]

pub delete_product-HasCategories :
    (id : Uuid) (t : Tables) → HasCategories t → HasCategories (delete_product id t).1
unfolding delete_product
delete_product-HasCategories id t h = All-delete _ (has_id id) t.products h

create_product_category-HasCategories :
    (name : String) (description : Option String) (t : Tables)
    → HasCategories t
    → HasCategories (create_product_category name description t).1
unfolding create_product_category
create_product_category-HasCategories name description t h =
    elim (Bool-cases (any (is_category (uuid_generate_v4 t.pg)) t.categories)) [
      | inl b ↦ rw b h
      | inr b ↦ rw b (
          All-map _ _ t.products
            (λ p k c e.
              any-append (is_category c) t.categories (new_category name description t.pg ∷ [])
              ∙ ap (λ x. x || any (is_category c) (new_category name description t.pg ∷ []))
                  (k c e))
            h)
    ]

update_product_category-HasCategories :
    (id : Uuid) (name : String) (description : Option String) (t : Tables)
    → HasCategories t
    → HasCategories (update_product_category id name description t).1
unfolding update_product_category
update_product_category-HasCategories id name description t h =
    All-map _ _ t.products
      (λ p k c e.
        any-update (is_category c) (is_category id) (with_names name description t.pg.now)
          t.categories (λ x. refl)
        ∙ k c e)
      h

any-delete :
    (c id : Uuid) (cs : List Category)
    → (c == id) ≡ false
    → any (is_category c) cs ≡ true
    → any (is_category c) (delete (is_category id) cs) ≡ true
any-delete c id [] n h = h
any-delete c id (x ∷ xs) n h = elim (Bool-cases (x.id == id)) [
  | inl b ↦
      let e : x.id ≡ id = (==_iff x.id id).0 b in
      let k : (x.id == c) ≡ false = ground arith in rw b (any-delete c id xs n (rw k at h))
  | inr b ↦ elim (Bool-cases (x.id == c)) [
    | inl d ↦ rw (b, d) refl
    | inr d ↦ rw (b, d) (any-delete c id xs n (rw d at h))
  ]
]

without_category-Refers :
    (id : Uuid) (cs : List Category) (p : Product)
    → Refers cs p
    → Refers (delete (is_category id) cs) (without_category id p)
without_category-Refers id cs p h c e = elim (Option-cases p.category_id) [
  | inl n ↦ let bad = rw (without_category, n, n) at e in cc
  | inr (d, n) ↦ elim (Bool-cases (d == id)) [
    | inl b ↦ let bad = rw (without_category, n, b) at e in cc
    | inr b ↦
        let k : some d ≡ some c = rw (without_category, n, b, n) at e in
        let same : d ≡ c = cc in
        let other : (c == id) ≡ false = rw same at b in any-delete c id cs other (h c (n ∙ k))
  ]
]

delete_product_category-HasCategories :
    (id : Uuid) (t : Tables) → HasCategories t → HasCategories (delete_product_category id t).1
unfolding delete_product_category
delete_product_category-HasCategories id t h =
    All-mapped _ _ (without_category id) t.products
      (λ p k. without_category-Refers id t.categories p k) h

-- A call of the database, in the state with the cache.
on_tables-Keeps :
    {A : Type 0} (m : Action Tables Error A)
    → Keeps HasCategories m
    → Keeps (λ (s : State). HasCategories s.tables) (on_tables m)
on_tables-Keeps m k = record {
  at = λ w h. k.at (record { tables = w.tables.tables; faults = w.faults }) h;
}

module _ (pf : Platform) (le : String → String → Bool)
    (parsed : List GrpcProductCategory → Option (List GrpcProductCategory)) where
  abbrev pub Kept : {A : Type 0} → Action State Code A → Type 0
  Kept m = Keeps (λ (s : State). HasCategories s.tables) m

  clears-Kept : Kept (spawn clears)
  clears-Kept = record { at = λ w h. h }

  uncache-Kept : Kept (uncache pf le parsed)
  unfolding delete_product_categories_cache
  uncache-Kept = record {
    at = λ w h.
        (Keeps-query {P = λ (s : State). HasCategories s.tables} delete_product_categories_cache
            (λ s k. k)).at
          w h;
  }

  pub changes-Kept :
      (ctx : ContextState) (req : CategoryRequest)
      → Kept (create_category pf le parsed ctx req)
        × Kept (update_category pf le parsed ctx req)
        × Kept (delete_category pf le parsed ctx req.id)
  unfolding create_category update_category delete_category
  changes-Kept ctx req = (
    Keeps-bind _ _ (Keeps-check_live pf ctx) (λ u.
        Keeps-bind _ _ (Keeps-guard (not (str_eq req.name "")) invalid_argument) (λ u.
          Keeps-bind _ _
            (Keeps-or_else _ category_error (
              on_tables-Keeps _ (
                Keeps-query (create_product_category req.name (optional_text req.description)) (
                  create_product_category-HasCategories req.name (optional_text req.description)))))
            (λ c.
              Keeps-bind _ _ clears-Kept
                (λ u. Keeps-pure (to_grpc_product_category pf le parsed c))))),
    Keeps-bind _ _ (Keeps-check_live pf ctx) (λ u.
        Keeps-bind _ _ (Keeps-guard (not (str_eq req.id "")) invalid_argument) (λ u.
          Keeps-bind _ _ (Keeps-require (pf.scan_uuid req.id) invalid_argument) (λ uid.
            Keeps-bind _ _
              (Keeps-or_else _ category_error (
                on_tables-Keeps _ (
                  Keeps-query (update_product_category uid req.name (some req.description))
                    (update_product_category-HasCategories uid req.name (some req.description)))))
              (λ u. clears-Kept)))),
    Keeps-bind _ _ (Keeps-check_live pf ctx) (λ u.
        Keeps-bind _ _ (Keeps-guard (not (str_eq req.id "")) invalid_argument) (λ u.
          Keeps-bind _ _ (Keeps-require (pf.scan_uuid req.id) invalid_argument) (λ uid.
            Keeps-bind _ _
              (Keeps-or_else _ category_error (
                on_tables-Keeps _ (
                  Keeps-query (delete_product_category uid)
                    (delete_product_category-HasCategories uid))))
              (λ u. uncache-Kept)))),
  )
