-- ===== src/Gateway/Pages.antt =====
-- The pages of products that a request can ask for, and what the product service returns for them.
use microservices.Prelude.Lists.{length-take}
use microservices.Prelude.{
  ℕ, zero, suc, ◌≡◌, refl, ◌≤◌, ◌<◌, ◌%◌, String, Bool, true, Option, List, [], ◌∷◌, arith, ltb,
}
use microservices.Prelude.Int.{ℤ, pos, negsuc}
use microservices.Prelude.Rows.{length, take}
use microservices.Effect.{ok}
use microservices.Product.{Product, Tables}
use microservices.Product.Queries.{list_products_paginated, sort_rows, drop}
use microservices.Gateway.{Claims, Request, Libraries, Services, list_products}
use microservices.Gateway.Handlers.{to_int32, page_limit, page_offset, list_products_handler}

to_int32-small : (n : ℕ) → n < 2147483648 → to_int32 n ≡ pos n
to_int32-small n h =
    let e : n % 4294967296 ≡ n = omega arith in
    let b : ltb n 2147483648 ≡ true = ground arith in rw (e, b) refl

-- A number that an int32 holds, if it is not negative.
abbrev pub IsSmall : ℤ → Type 0
IsSmall (pos n) = n < 2147483648
IsSmall (negsuc n) = Unit {0}

page_limit-pos : (z : ℤ) → IsSmall z → (l : ℕ) × (page_limit z ≡ pos (suc l))
page_limit-pos (pos zero) h = (9, refl)
page_limit-pos (pos (suc n)) h = (n, to_int32-small (suc n) h)
page_limit-pos (negsuc n) h = (9, refl)

page_offset-pos : (z : ℤ) → IsSmall z → (o : ℕ) × (page_offset z ≡ pos o)
page_offset-pos (pos n) h = (n, to_int32-small n h)
page_offset-pos (negsuc n) h = (0, refl)

module _ {Body : Type 0} (lib : Libraries) (services : Services Body) where
  -- Where the numbers that are read from limit and offset are below 2 ^ 31, a list of products is
  -- asked for with a positive limit and an offset that is not negative, which the statement of the
  -- product service accepts; it returns at most as many rows as the limit.
  pub list_products_handler-paginated :
      (claims : Option Claims) (req : Request) (le : String → String → Bool) (t : Tables)
      → IsSmall (lib.atoi (req.query "limit"))
      → IsSmall (lib.atoi (req.query "offset"))
      → (limit offset : ℕ) × ((list_products_handler lib services claims req).calls
          ≡ list_products (pos (suc limit)) (pos offset) ∷ [])
        × (rows : List Product) × ((list_products_paginated le (pos (suc limit)) (pos offset) t).0
            ≡ ok rows)
        × (length rows ≤ suc limit)
  unfolding list_products_handler list_products_paginated
  list_products_handler-paginated claims req le t h k =
      let (l, a) = page_limit-pos (lib.atoi (req.query "limit")) h in
      let (o, b) = page_offset-pos (lib.atoi (req.query "offset")) k in
      let rows : List Product =
        take (suc l) (drop o (sort_rows (λ p q. le p.name q.name) t.products)) in
      (
        l,
        o,
        rw (a, b) refl,
        rows,
        refl,
        length-take (suc l) (drop o (sort_rows (λ p q. le p.name q.name) t.products)),
      )
