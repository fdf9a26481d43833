-- ===== src/Product/Service/RoundTrip.antt =====
-- A product that was created can be read.
use microservices.Prelude.{
  ◌≡◌, refl, ap, sym, ◌∙◌, inl, inr, true, false, String, Option, none, some, List, [], ◌∷◌, ◌++◌,
  ◌==◌, ==_refl, Bool-cases,
}
use microservices.Prelude.Rows.{find, any}
use microservices.Grpc.{Platform, Uuid, ContextState, live, invalid_argument}
use microservices.Effect.{ok, err, World, require, or_else, to_internal, query, check_live}
use microservices.Effect.Laws.{bind-ok, rethrow-ok}
use microservices.Product.{Product, Tables}
use microservices.Product.Queries.{ProductParams, has_id, get_product as get_product_row}
use microservices.Product.Repository.{Formats, create_product as create_product_row}
use microservices.Product.Repository.Laws.{product_changes_atomic}
use microservices.Product.Service.{
  State, CacheJob, GrpcProduct, ProductMap, ProductRequest, cache_key, to_grpc_product, on_tables,
  get_product, get_stored_product, cached_product,
}
use microservices.Product.Service.Calls.{product_params, create_product}

find-append :
    (id : Uuid) (ps : List Product) (p : Product)
    → p.id ≡ id
    → any (has_id id) ps ≡ false
    → find (has_id id) (ps ++ p ∷ []) ≡ some p
find-append id [] p e h = let b : (p.id == id) ≡ true = rw e (==_refl id) in rw b refl
find-append id (q ∷ ps) p e h = elim (Bool-cases (q.id == id)) [
  | inl b ↦ let bad = rw b at h in cc
  | inr b ↦ rw b (find-append id ps p e (rw b at h))
]

module _ (pf : Platform) (formats : Formats) (parsed : ProductMap → Option ProductMap) where
  -- The row that CreateProduct stored, and that a lookup by its id finds.
  record Stored (g : GrpcProduct) (t : Tables) : Type 0 where
    row : Product
    shown : to_grpc_product pf formats parsed row ≡ g
    found : find (has_id row.id) t.products ≡ some row

  create_product_row-Stored :
      (params : ProductParams) (w : World Tables) (p : Product)
      → (create_product_row pf formats params w).0 ≡ ok p
      → Stored
          (to_grpc_product pf formats parsed p)
          (create_product_row pf formats params w).1.tables
  create_product_row-Stored params w p h =
      elim ((product_changes_atomic pf formats p.id params w).0) [
        | inl (q, done, (event, body, c, a)) ↦
            let k : ok p ≡ ok q = sym h ∙ done in
            let e : p ≡ q = cc in
            record {
              row = q;
              shown = ap (to_grpc_product pf formats parsed) (sym e);
              found =
                  ap (find (has_id q.id)) c.added
                  ∙ find-append q.id w.tables.products q refl c.new_id;
            }
        | inr (e, failed, same) ↦ let bad : ok p ≡ err e = sym h ∙ failed in cc
      ]

  on_tables-Stored :
      (params : ProductParams) (w v : World State) (p : Product)
      → on_tables (create_product_row pf formats params) w ≡ (ok p, v)
      → Stored (to_grpc_product pf formats parsed p) v.tables.tables
  on_tables-Stored params w v p h =
      let before : World Tables = record { tables = w.tables.tables; faults = w.faults } in
      let s = create_product_row-Stored params before p (ap (λ r. r.0) h) in
      record {
        row = s.row;
        shown = s.shown;
        found = sym (ap (λ r. find (has_id s.row.id) r.1.tables.tables.products) h) ∙ s.found;
      }

  get_product-found :
      (id : String) (u : Uuid) (p : Product) (s : State)
      → s.cache (cache_key id) ≡ none
      → pf.scan_uuid id ≡ some u
      → find (has_id u) s.tables.products ≡ some p
      → (get_product pf formats parsed live id (record { tables = s; faults = [] })).0
        ≡ ok (to_grpc_product pf formats parsed p)
  unfolding get_product check_live cached_product query get_stored_product get_product_row
  get_product-found id u p s missing scanned found = rw (missing, scanned, found) refl

  create_product-Stored :
      (ctx : ContextState) (req : ProductRequest) (w : World State) (g : GrpcProduct)
      → (create_product pf formats parsed ctx req w).0 ≡ ok g
      → Stored g (create_product pf formats parsed ctx req w).1.tables.tables
  unfolding create_product
  create_product-Stored ctx req w g h =
      let a = bind-ok (check_live pf ctx) _ w h in
      let b = bind-ok (require (pf.scan_uuid req.category_id) invalid_argument) _ a.mid a.rest in
      let c =
        bind-ok (require (product_params pf formats parsed b.value req) invalid_argument) _ b.mid
          b.rest in
      let d =
        bind-ok (or_else (on_tables (create_product_row pf formats c.value)) to_internal) _ c.mid
          c.rest in
      let row = rethrow-ok to_internal _ d.value d.mid d.first in
      let k : ok (to_grpc_product pf formats parsed d.value) ≡ ok g = d.rest in
      let e : to_grpc_product pf formats parsed d.value ≡ g = cc in
      let made = on_tables-Stored c.value c.mid d.mid d.value row in
      rw (a.same, b.same, c.same, d.same)
        (record { row = made.row; shown = made.shown ∙ e; found = made.found })

  -- A product that was created can be read at once: after CreateProduct replied a product,
  -- GetProduct of its id, with a live context, a database that answers and no entry of the cache
  -- for the id, replies the same product. The text of an id reads back as the id.
  pub get_product-create_product :
      (reads_back : (u : Uuid) → pf.scan_uuid (pf.uuid_string u) ≡ some u) (ctx : ContextState)
      (req : ProductRequest) (w : World State) (g : GrpcProduct)
      (cache : String → Option ProductMap) (jobs : List CacheJob)
      → (create_product pf formats parsed ctx req w).0 ≡ ok g
      → cache (cache_key g.id) ≡ none
      → (get_product pf formats parsed live g.id (record {
        tables = record {
          tables = (create_product pf formats parsed ctx req w).1.tables.tables;
          cache = cache;
          jobs = jobs;
        };
        faults = [];
      })).0
        ≡ ok g
  unfolding get_product
  get_product-create_product reads_back ctx req w g cache jobs h missing =
      let made = create_product-Stored ctx req w g h in
      let id : pf.scan_uuid g.id ≡ some made.row.id =
        ap (λ (x : GrpcProduct). pf.scan_uuid x.id) (sym made.shown) ∙ reads_back made.row.id in
      get_product-found g.id made.row.id made.row
        (record {
          tables = (create_product pf formats parsed ctx req w).1.tables.tables;
          cache = cache;
          jobs = jobs;
        })
        missing id made.found
      ∙ ap ok made.shown
