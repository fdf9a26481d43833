-- ===== src/Product/Service/Replies.antt =====
-- What the calls on products reply, where the cache is sound.
use microservices.Prelude.Lists.{All, All-append, All-map}
use microservices.Prelude.{
  ◌≡◌, refl, ap, sym, ◌∙◌, inl, inr, true, String, Option, none, some, List, [], ◌∷◌, ◌++◌, map,
  ◌==◌, ==_iff, Bool-cases, Option-cases,
}
use microservices.Prelude.Rows.{find, any, select}
use microservices.Grpc.{Platform, Uuid, ContextState, invalid_argument}
use microservices.Effect.{ok, World, query, to_internal}
use microservices.Effect.Laws.{query-cases}
use microservices.Effect.Yields.{
  Yields, Holds, Yields-weaken, Yields-pure, Yields-require, Yields-bind, Yields-or_else,
  Yields-check_live,
}
use microservices.Product.{Product, Tables}
use microservices.Product.Queries.{
  has_id, has_any_id, get_product as get_product_row, get_products_by_ids as get_rows_by_ids,
}
use microservices.Product.Repository.{Formats}
use microservices.Product.Service.{
  State, GrpcProduct, ProductMap, cache_key, map_to_product, to_grpc_product, usable, entry_of,
  cached_product, get_stored_product, get_product, unless_cached, get_error,
}
use microservices.Product.Service.Calls.{
  to_uuids, cache_products, read_entries, get_products_from_cache, get_products_from_db, hit, miss,
  with_missed, get_products_by_ids,
}
use microservices.Product.Service.Laws.{
  IsFor, IsSound, IsAsked, find-id, spawn-Yields, on_tables-Yields,
}

get_product_row-id :
    (id : Uuid) (w : World Tables)
    → Holds (λ (p : Product). p.id ≡ id) (query (get_product_row id) w).0
unfolding get_product_row
get_product_row-id id w = elim (query-cases (get_product_row id) w) [
  | inl (fs, e) ↦ rw e tt
  | inr (fs, e) ↦ elim (Option-cases (find (has_id id) w.tables.products)) [
    | inl n ↦ rw (e, get_product_row, n) tt
    | inr (p, n) ↦ rw (e, get_product_row, n) (find-id id w.tables.products p n)
  ]
]

module _ (pf : Platform) (formats : Formats) (parsed : ProductMap → Option ProductMap) where
  module _ (keeps_id : (m d : ProductMap) → parsed m ≡ some d → d.id ≡ m.id) where
    usable-IsFor :
        (id : String) (entry : Option ProductMap) (p : GrpcProduct)
        → ((m : ProductMap) → entry ≡ some m → IsFor pf id m.id)
        → usable pf formats parsed entry ≡ some p
        → IsFor pf id p.id
    usable-IsFor id none p own h = cc
    usable-IsFor id (some m) p own h = elim (Option-cases (parsed m)) [
      | inl n ↦ let bad = rw (usable, n) at h in cc
      | inr (d, n) ↦
          let k : some (map_to_product d) ≡ some p = rw (usable, n) at h in
          let e : map_to_product d ≡ p = cc in
          let (u, a, is) = own m refl in
          (u, a, sym (ap (λ (x : GrpcProduct). x.id) e) ∙ keeps_id m d n ∙ is)
    ]

    cached_product-Yields :
        (id : String)
        → Yields
            (IsSound pf)
            (cached_product pf formats parsed id)
            (λ o. (p : GrpcProduct) → o ≡ some p → IsFor pf id p.id)
    unfolding cached_product
    cached_product-Yields id = record {
      at = λ w h. elim (query-cases (entry_of pf formats parsed id) w) [
        | inl (fs, e) ↦ rw e (h, λ p k. cc)
        | inr (fs, e) ↦ rw e (
          h,
          λ p k.
              usable-IsFor id (w.tables.cache (cache_key id)) p (λ m found. h.entries id m found) k,
        )
      ];
    }

    get_stored_product-Yields :
        (id : String)
        → Yields (IsSound pf) (get_stored_product pf formats parsed id) (λ p. IsFor pf id p.id)
    unfolding get_stored_product
    get_stored_product-Yields id =
        Yields-bind _ _ (λ uid. pf.scan_uuid id ≡ some uid) _
          (Yields-require (pf.scan_uuid id) invalid_argument)
          (λ uid a.
            Yields-bind _ _ (λ p. p.id ≡ uid) _
              (Yields-or_else _ get_error _
                (on_tables-Yields pf (query (get_product_row uid)) _ (get_product_row-id uid)))
              (λ p e.
                let own : IsFor pf id (pf.uuid_string p.id) = (uid, a, ap pf.uuid_string e) in
                Yields-bind _ _ (λ u. Unit {0}) _
                  (spawn-Yields pf id (to_grpc_product pf formats parsed p) own)
                  (λ u t. Yields-pure (to_grpc_product pf formats parsed p) _ own)))

    unless_cached-Yields :
        (id : String) (o : Option GrpcProduct)
        → ((p : GrpcProduct) → o ≡ some p → IsFor pf id p.id)
        → Yields (IsSound pf) (unless_cached pf formats parsed id o) (λ p. IsFor pf id p.id)
    unless_cached-Yields id none h = get_stored_product-Yields id
    unless_cached-Yields id (some p) h = Yields-pure p _ (h p refl)

    pub get_product-Yields :
        (ctx : ContextState) (id : String)
        → Yields (IsSound pf) (get_product pf formats parsed ctx id) (λ p. IsFor pf id p.id)
    unfolding get_product
    get_product-Yields ctx id =
        Yields-bind _ _ (λ u. Unit {0}) _ (Yields-check_live pf ctx)
          (λ u t. Yields-bind _ _ _ _ (cached_product-Yields id) (unless_cached-Yields id))

    module _ (reads_back : (u : Uuid) → pf.scan_uuid (pf.uuid_string u) ≡ some u) where
      own-IsFor : (ids : List String) (own : String) → IsAsked pf ids own → IsFor pf own own
      own-IsFor [] own h = absurd h
      own-IsFor (id ∷ ids) own (inl (u, a, e)) = (u, ap pf.scan_uuid e ∙ reads_back u, e)
      own-IsFor (id ∷ ids) own (inr h) = own-IsFor ids own h

      to_uuids-IsAsked :
          (ids : List String) (uids : List Uuid) (u : Uuid)
          → to_uuids pf ids ≡ some uids
          → any (λ id. u == id) uids ≡ true
          → IsAsked pf ids (pf.uuid_string u)
      to_uuids-IsAsked [] uids u h k = let e : [] ≡ uids = cc in let bad = rw (sym e) at k in cc
      to_uuids-IsAsked (id ∷ ids) uids u h k = elim (Option-cases (pf.scan_uuid id)) [
        | inl n ↦ let bad = rw (to_uuids, n) at h in cc
        | inr (uid, n) ↦ elim (Option-cases (to_uuids pf ids)) [
          | inl m ↦ let bad = rw (to_uuids, n, m) at h in cc
          | inr (rest, m) ↦
              let all : some (uid ∷ rest) ≡ some uids = rw (to_uuids, n, m) at h in
              let e : uid ∷ rest ≡ uids = cc in
              let found : any (λ x. u == x) (uid ∷ rest) ≡ true = rw (sym e) at k in
              elim (Bool-cases (u == uid)) [
                | inl b ↦
                    let same : u ≡ uid = (==_iff u uid).0 b in inl (uid, n, ap pf.uuid_string same)
                | inr b ↦ inr (to_uuids-IsAsked ids rest u m (rw b at found))
              ]
        ]
      ]

      select-IsAsked :
          (ids : List String) (uids : List Uuid) (ps : List Product)
          → to_uuids pf ids ≡ some uids
          → All
              (λ g. IsAsked pf ids g.id)
              (map (to_grpc_product pf formats parsed) (select (has_any_id uids) ps))
      select-IsAsked ids uids [] h = tt
      select-IsAsked ids uids (p ∷ ps) h = elim (Bool-cases (has_any_id uids p)) [
        | inl b ↦ rw b (to_uuids-IsAsked ids uids p.id h b, select-IsAsked ids uids ps h)
        | inr b ↦ rw b (select-IsAsked ids uids ps h)
      ]

      get_products_from_db-Yields :
          (ids : List String)
          → Yields
              (IsSound pf)
              (get_products_from_db pf formats parsed ids)
              (All (λ g. IsAsked pf ids g.id))
      unfolding get_products_from_db get_rows_by_ids
      get_products_from_db-Yields ids =
          Yields-bind _ _ (λ uids. to_uuids pf ids ≡ some uids) _
            (Yields-require (to_uuids pf ids) invalid_argument)
            (λ uids a.
              Yields-bind _ _
                (λ ps. All (λ g. IsAsked pf ids g.id) (map (to_grpc_product pf formats parsed) ps))
                _
                (Yields-or_else _ to_internal _ (
                  on_tables-Yields pf (query (get_rows_by_ids uids)) _ (λ w.
                    elim (query-cases (get_rows_by_ids uids) w) [
                      | inl (fs, e) ↦ rw e tt
                      | inr (fs, e) ↦ rw e (select-IsAsked ids uids w.tables.products a)
                    ])))
                (λ ps k. Yields-pure _ _ k))

      cache_products-Yields :
          (ids : List String) (ps : List GrpcProduct)
          → All (λ g. IsAsked pf ids g.id) ps
          → Yields (IsSound pf) (cache_products ps) (λ u. Unit {0})
      cache_products-Yields ids [] h = record { at = λ w k. (k, tt) }
      cache_products-Yields ids (p ∷ ps) h = record {
        at = λ w k.
            (cache_products-Yields ids ps h.1).at _
              ((spawn-Yields pf p.id p (own-IsFor ids p.id h.0)).at w k).0;
      }

      abbrev IsSplit : List String → List GrpcProduct × List String → Type 0
      IsSplit ids r =
          All (λ g. IsAsked pf ids g.id) r.0
          × ((own : String) → IsAsked pf r.1 own → IsAsked pf ids own)

      hit-IsAsked :
          (id : String) (ids : List String) (entry : Option ProductMap) (ps : List GrpcProduct)
          → ((m : ProductMap) → entry ≡ some m → IsFor pf id m.id)
          → All (λ g. IsAsked pf ids g.id) ps
          → All (λ g. IsAsked pf (id ∷ ids) g.id) (hit pf formats parsed entry ps)
      hit-IsAsked id ids entry ps own h =
          let rest = All-map _ (λ g. IsAsked pf (id ∷ ids) g.id) ps (λ g k. inr k) h in
          elim (Option-cases (usable pf formats parsed entry)) [
            | inl n ↦ rw (hit, n) rest
            | inr (p, n) ↦ rw (hit, n) (inl (usable-IsFor id entry p own n), rest)
          ]

      miss-IsAsked :
          (id own : String) (ids missed : List String) (entry : Option ProductMap)
          → ((k : IsAsked pf missed own) → IsAsked pf ids own)
          → IsAsked pf (miss pf formats parsed id entry missed) own
          → IsAsked pf (id ∷ ids) own
      miss-IsAsked id own ids missed none f (inl h) = inl h
      miss-IsAsked id own ids missed none f (inr h) = inr (f h)
      miss-IsAsked id own ids missed (some m) f h = inr (f h)

      read_entries-IsSplit :
          (ids : List String) (s : State)
          → IsSound pf s
          → IsSplit ids (read_entries pf formats parsed s.cache ids)
      read_entries-IsSplit [] s h = (tt, λ own k. k)
      read_entries-IsSplit (id ∷ ids) s h =
          let (found, missed) = read_entries-IsSplit ids s h in
          (
            hit-IsAsked id ids (s.cache (cache_key id)) _ (h.entries id) found,
            λ own k. miss-IsAsked id own ids _ (s.cache (cache_key id)) (missed own) k,
          )

      get_products_from_cache-Yields :
          (ids : List String)
          → Yields (IsSound pf) (get_products_from_cache pf formats parsed ids) (IsSplit ids)
      unfolding get_products_from_cache
      get_products_from_cache-Yields ids = record {
        at = λ w h.
            elim (query-cases (λ s. (ok (read_entries pf formats parsed s.cache ids), s)) w) [
              | inl (fs, e) ↦ rw e (h, (tt, λ own k. k))
              | inr (fs, e) ↦ rw e (h, read_entries-IsSplit ids w.tables h)
            ];
      }

      with_missed-Yields :
          (ids : List String) (r : List GrpcProduct × List String)
          → IsSplit ids r
          → Yields (IsSound pf) (with_missed pf formats parsed r) (All (λ g. IsAsked pf ids g.id))
      with_missed-Yields ids (found, []) h = Yields-pure found _ h.0
      with_missed-Yields ids (found, id ∷ missed) h =
          Yields-bind _ _ (All (λ g. IsAsked pf ids g.id)) _
            (Yields-weaken (get_products_from_db-Yields (id ∷ missed))
              (λ ps. All-map _ _ ps (λ g. h.1 g.id)))
            (λ ps k.
              Yields-bind _ _ (λ u. Unit {0}) _ (cache_products-Yields ids ps k)
                (λ u t. Yields-pure (found ++ ps) _ (All-append _ found ps h.0 k)))

      pub get_products_by_ids-Yields :
          (ids : List String)
          → Yields
              (IsSound pf)
              (get_products_by_ids pf formats parsed ids)
              (All (λ g. IsAsked pf ids g.id))
      unfolding get_products_by_ids
      get_products_by_ids-Yields [] = Yields-pure [] _ tt
      get_products_by_ids-Yields (id ∷ ids) =
          Yields-bind _ _ _ _ (get_products_from_cache-Yields (id ∷ ids))
            (with_missed-Yields (id ∷ ids))
