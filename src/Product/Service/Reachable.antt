-- ===== src/Product/Service/Reachable.antt =====
-- Runs of the product service: calls, goroutines, expiries and changes of the tables in any order.
use mathlib.Core.Path.{subst}
use microservices.Prelude.Lists.{All}
use microservices.Prelude.{◌≡◌, refl, ap, inl, inr, String, Option, none, some, List, [], ◌∷◌, ◌++◌}
use microservices.Grpc.{Platform, Uuid, ContextState, invalid_argument}
use microservices.Effect.{Result, ok, err, Error, World, to_internal, query}
use microservices.Effect.Yields.{
  Yields, Holds, Holds-ok, Yields-pure, Yields-require, Yields-bind, Yields-or_else, Yields-query,
  Yields-check_live,
}
use microservices.Product.{Product, Tables}
use microservices.Product.Queries.{ProductParams, get_product as get_product_row}
use microservices.Product.Repository.{
  Formats, create_product as create_product_row, update_product as update_product_row,
  delete_product as delete_product_row,
}
use microservices.Product.Repository.Laws.{product_changes_atomic}
use microservices.Product.Service.{
  State, GrpcProduct, ProductMap, ProductRequest, CacheJob, cache_product, delete_product_cache,
  to_grpc_product, get_product, get_error,
}
use microservices.Product.Service.Calls.{
  product_params, create_product, update_product, delete_product, uncache, get_products_by_ids,
}
use microservices.Product.Service.Laws.{
  IsFor, IsSound, IsAsked, find-id, cache_product-IsSound, delete_product_cache-IsSound,
  spawn-Yields, on_tables-Yields,
}
use microservices.Product.Service.Replies.{get_product-Yields, get_products_by_ids-Yields}

module _ (pf : Platform) (formats : Formats) (parsed : ProductMap → Option ProductMap) where
  update_product_row-id :
      (id : Uuid) (params : ProductParams) (w : World Tables)
      → Holds (λ (p : Product). p.id ≡ id) (update_product_row pf formats id params w).0
  update_product_row-id id params w = elim ((product_changes_atomic pf formats id params w).1) [
    | inl (p, done, (event, body, u, a)) ↦ rw done (find-id id _ p u.found)
    | inr (e, failed, same) ↦ rw failed tt
  ]

  any_result : {A : Type 0} (r : Result Error A) → Holds (λ a. Unit {0}) r
  any_result (ok a) = tt
  any_result (err e) = tt

  update_product-Yields :
      (ctx : ContextState) (req : ProductRequest)
      → Yields (IsSound pf) (update_product pf formats parsed ctx req) (λ p. IsFor pf req.id p.id)
  unfolding update_product
  update_product-Yields ctx req =
      Yields-bind _ _ (λ u. Unit {0}) _ (Yields-check_live pf ctx)
        (λ u t.
          Yields-bind _ _ (λ uid. pf.scan_uuid req.id ≡ some uid) _
            (Yields-require (pf.scan_uuid req.id) invalid_argument)
            (λ uid a.
              Yields-bind _ _ _ _ (Yields-require (pf.scan_uuid req.category_id) invalid_argument)
                (λ category b.
                  Yields-bind _ _ _ _
                    (Yields-require (product_params pf formats parsed category req)
                      invalid_argument)
                    (λ params c.
                      Yields-bind _ _ (λ p. p.id ≡ uid) _
                        (Yields-or_else _ get_error _ (
                          on_tables-Yields pf (update_product_row pf formats uid params) _
                            (update_product_row-id uid params)))
                        (λ p e.
                          let own : IsFor pf req.id (pf.uuid_string p.id) =
                            (uid, a, ap pf.uuid_string e) in
                          Yields-bind _ _ (λ u. Unit {0}) _
                            (spawn-Yields pf req.id (to_grpc_product pf formats parsed p) own)
                            (λ u t. Yields-pure (to_grpc_product pf formats parsed p) _ own))))))

  uncache-Yields :
      (id : String) → Yields (IsSound pf) (uncache pf formats parsed id) (λ u. Unit {0})
  uncache-Yields id = record {
    at = λ w h. (
      ((Yields-query (delete_product_cache id) (λ u. Unit {0})
            (λ s k. (
              delete_product_cache-IsSound pf id s k,
              any_result (delete_product_cache id s).0,
            ))).at
          w h).0,
      tt,
    );
  }

  delete_product-Yields :
      (ctx : ContextState) (id : String)
      → Yields (IsSound pf) (delete_product pf formats parsed ctx id) (λ u. Unit {0})
  unfolding delete_product
  delete_product-Yields ctx id =
      Yields-bind _ _ (λ u. Unit {0}) _ (Yields-check_live pf ctx)
        (λ u t. Yields-bind _ _ _ _ (Yields-require (pf.scan_uuid id) invalid_argument) (λ uid a.
          Yields-bind _ _ (λ p. Unit {0}) _
            (Yields-or_else _ get_error _ (
              on_tables-Yields pf (query (get_product_row uid)) _
                (λ w. any_result (query (get_product_row uid) w).0)))
            (λ p e.
              Yields-bind _ _ (λ u. Unit {0}) _
                (Yields-or_else _ to_internal _ (
                  on_tables-Yields pf (delete_product_row pf formats uid) _
                    (λ w. any_result (delete_product_row pf formats uid w).0)))
                (λ u t. uncache-Yields id))))

  module _ (reads_back : (u : Uuid) → pf.scan_uuid (pf.uuid_string u) ≡ some u) where
    create_product-Yields :
        (ctx : ContextState) (req : ProductRequest)
        → Yields (IsSound pf) (create_product pf formats parsed ctx req) (λ p. IsFor pf p.id p.id)
    unfolding create_product
    create_product-Yields ctx req =
        Yields-bind _ _ (λ u. Unit {0}) _ (Yields-check_live pf ctx)
          (λ u t.
            Yields-bind _ _ _ _ (Yields-require (pf.scan_uuid req.category_id) invalid_argument)
              (λ category b.
                Yields-bind _ _ _ _
                  (Yields-require (product_params pf formats parsed category req) invalid_argument)
                  (λ params c.
                    Yields-bind _ _ (λ p. Unit {0}) _
                      (Yields-or_else _ to_internal _ (
                        on_tables-Yields pf (create_product_row pf formats params) _
                          (λ w. any_result (create_product_row pf formats params w).0)))
                      (λ p e.
                        let own : IsFor pf (pf.uuid_string p.id) (pf.uuid_string p.id) =
                          (p.id, reads_back p.id, refl) in
                        Yields-bind _ _ (λ u. Unit {0}) _
                          (spawn-Yields pf (pf.uuid_string p.id)
                            (to_grpc_product pf formats parsed p) own)
                          (λ u t. Yields-pure (to_grpc_product pf formats parsed p) _ own)))))

  -- The states of a service that started with an empty cache.
  pub data Reachable (start : Tables) : State → Type 0 where
    started : Reachable start (record { tables = start; cache = λ key. none; jobs = [] })
    gets :
        (s : World State) (ctx : ContextState) (id : String)
        → Reachable start s.tables
        → Reachable start (get_product pf formats parsed ctx id s).1.tables
    gets_many :
        (s : World State) (ids : List String)
        → Reachable start s.tables
        → Reachable start (get_products_by_ids pf formats parsed ids s).1.tables
    creates :
        (s : World State) (ctx : ContextState) (req : ProductRequest)
        → Reachable start s.tables
        → Reachable start (create_product pf formats parsed ctx req s).1.tables
    updates :
        (s : World State) (ctx : ContextState) (req : ProductRequest)
        → Reachable start s.tables
        → Reachable start (update_product pf formats parsed ctx req s).1.tables
    deletes :
        (s : World State) (ctx : ContextState) (id : String)
        → Reachable start s.tables
        → Reachable start (delete_product pf formats parsed ctx id s).1.tables
    -- A goroutine runs, whichever of those that wait.
    caches :
        (s : State) (before after : List CacheJob) (job : CacheJob)
        → s.jobs ≡ before ++ job ∷ after
        → Reachable start s
        → Reachable start (cache_product job.id job.product (record s { jobs = before ++ after })).1
    -- A goroutine fails.
    gives_up :
        (s : State) (before after : List CacheJob) (job : CacheJob)
        → s.jobs ≡ before ++ job ∷ after
        → Reachable start s
        → Reachable start (record s { jobs = before ++ after })
    expires :
        (s : State) (id : String)
        → Reachable start s
        → Reachable start (delete_product_cache id s).1
    -- Another process, or the consumer of orders, changes the tables.
    changes :
        (s : State) (t : Tables) → Reachable start s → Reachable start (record s { tables = t })

  All-split :
      {A : Type 0} (P : A → Type 0) (xs ys : List A) (x : A)
      → All P (xs ++ x ∷ ys)
      → P x × All P (xs ++ ys)
  All-split P [] ys x h = h
  All-split P (y ∷ xs) ys x h = let (own, rest) = All-split P xs ys x h.1 in (own, (h.0, rest))

  without_job :
      (s : State) (before after : List CacheJob) (job : CacheJob)
      → s.jobs ≡ before ++ job ∷ after
      → IsSound pf s
      → IsFor pf job.id job.product.id × IsSound pf (record s { jobs = before ++ after })
  without_job s before after job e h =
      let waiting : All (λ (j : CacheJob). IsFor pf j.id j.product.id) (before ++ job ∷ after) =
        subst (All (λ (j : CacheJob). IsFor pf j.id j.product.id)) e h.waiting in
      let (own, rest) =
        All-split (λ (j : CacheJob). IsFor pf j.id j.product.id) before after job waiting in
      (own, record { entries = h.entries; waiting = rest })

  module _ (reads_back : (u : Uuid) → pf.scan_uuid (pf.uuid_string u) ≡ some u)
      (keeps_id : (m d : ProductMap) → parsed m ≡ some d → d.id ≡ m.id) where
    Reachable-IsSound : (t : Tables) (s : State) → Reachable t s → IsSound pf s
    Reachable-IsSound t s started = record { entries = λ id m e. cc; waiting = tt }
    Reachable-IsSound t s (gets w ctx id r) =
        ((get_product-Yields pf formats parsed keeps_id ctx id).at w
          (Reachable-IsSound t w.tables r)).0
    Reachable-IsSound t s (gets_many w ids r) =
        ((get_products_by_ids-Yields pf formats parsed keeps_id reads_back ids).at w
          (Reachable-IsSound t w.tables r)).0
    Reachable-IsSound t s (creates w ctx req r) =
        ((create_product-Yields reads_back ctx req).at w (Reachable-IsSound t w.tables r)).0
    Reachable-IsSound t s (updates w ctx req r) =
        ((update_product-Yields ctx req).at w (Reachable-IsSound t w.tables r)).0
    Reachable-IsSound t s (deletes w ctx id r) =
        ((delete_product-Yields ctx id).at w (Reachable-IsSound t w.tables r)).0
    Reachable-IsSound t s (caches v before after job e r) =
        let (own, h) = without_job v before after job e (Reachable-IsSound t v r) in
        cache_product-IsSound pf job.id job.product (record v { jobs = before ++ after }) own h
    Reachable-IsSound t s (gives_up v before after job e r) =
        (without_job v before after job e (Reachable-IsSound t v r)).1
    Reachable-IsSound t s (expires v id r) =
        delete_product_cache-IsSound pf id v (Reachable-IsSound t v r)
    Reachable-IsSound t s (changes v u r) =
        let h = Reachable-IsSound t v r in record { entries = h.entries; waiting = h.waiting }

    -- In every state that a service with an empty cache reaches, by calls that may fail, goroutines
    -- run in any order or failing, expiries and changes of the tables, GetProduct replies only a
    -- product of the requested id, and GetProductsByIDs only products of requested ids, from the
    -- cache too. The text of an id reads back as the id, and Redis keeps the id of an entry.
    pub replies-IsAsked :
        (t : Tables) (s : World State)
        → Reachable t s.tables
        → ((ctx : ContextState) (id : String) (p : GrpcProduct)
            → (get_product pf formats parsed ctx id s).0 ≡ ok p
            → IsFor pf id p.id)
          × ((ids : List String) (ps : List GrpcProduct)
              → (get_products_by_ids pf formats parsed ids s).0 ≡ ok ps
              → All (λ p. IsAsked pf ids p.id) ps)
    replies-IsAsked t s r =
        let h = Reachable-IsSound t s.tables r in
        (
          λ ctx id p done.
              Holds-ok _ _ p ((get_product-Yields pf formats parsed keeps_id ctx id).at s h).1 done,
          λ ids ps done.
              Holds-ok _ _ ps
                ((get_products_by_ids-Yields pf formats parsed keeps_id reads_back ids).at s h).1
                done,
        )
