-- ===== src/Product/Service/Laws.antt =====
-- The cache holds no product under the id of another one, whatever call runs.
use text.Mathlib.TextLemmas.{append_cancel_left}
use microservices.Prelude.Lists.{All, All-append}
use microservices.Prelude.{
  ◌≡◌, ap, sym, ◌∙◌, ◌⊎◌, inl, inr, String, Option, none, some, List, [], ◌∷◌, ◌==◌, ==_iff,
  Bool-cases, str_eq, eq_iff,
}
use microservices.Prelude.Rows.{find}
use microservices.Grpc.{Platform, Uuid}
use microservices.Effect.{Error, World, Action}
use microservices.Effect.Yields.{Yields, Holds}
use microservices.Product.{Product, Tables}
use microservices.Product.Queries.{has_id}
use microservices.Product.Service.{
  State, GrpcProduct, ProductMap, cache_key, product_cache_prefix, put_entry, cache_product,
  delete_product_cache, product_to_map, on_tables, spawn,
}

cache_key-inj : (a b : String) → cache_key a ≡ cache_key b → a ≡ b
cache_key-inj a b h = append_cancel_left product_cache_prefix a b h

-- A row that is found has the id.
pub find-id :
    (id : Uuid) (ps : List Product) (p : Product) → find (has_id id) ps ≡ some p → p.id ≡ id
find-id id [] p h = cc
find-id id (q ∷ ps) p h = elim (Bool-cases (q.id == id)) [
  | inl b ↦
      let k : some q ≡ some p = rw b at h in
      let e : q ≡ p = cc in sym (ap (λ r. r.id) e) ∙ (==_iff q.id id).0 b
  | inr b ↦ find-id id ps p (rw b at h)
]

module _ (pf : Platform) where
  -- The id of a request and the id of a product are of one UUID.
  abbrev pub IsFor : String → String → Type 0
  IsFor id own = (u : Uuid) × (pf.scan_uuid id ≡ some u) × (own ≡ pf.uuid_string u)

  -- The id of a product is asked for by one of the ids of a request.
  abbrev pub IsAsked : List String → String → Type 0
  IsAsked [] own = ⊥
  IsAsked (id ∷ ids) own = IsFor id own ⊎ IsAsked ids own

  -- Every entry and every job is of the product that its key names.
  pub record IsSound (s : State) : Type 0 where
    pub entries : (id : String) (m : ProductMap) → s.cache (cache_key id) ≡ some m → IsFor id m.id
    pub waiting : All (λ j. IsFor j.id j.product.id) s.jobs

  put-IsSound :
      (id : String) (entry : Option ProductMap) (s : State)
      → ((m : ProductMap) → entry ≡ some m → IsFor id m.id)
      → IsSound s
      → IsSound (put_entry id entry s)
  put-IsSound id entry s own h = record {
    entries = λ key m found. elim (Bool-cases (str_eq (cache_key id) (cache_key key))) [
      | inl b ↦
          let e = cache_key-inj id key ((eq_iff (cache_key id) (cache_key key)).0 b) in
          let (u, a, k) = own m (rw b at found) in (u, rw (sym e) a, k)
      | inr b ↦ h.entries key m (rw b at found)
    ];
    waiting = h.waiting;
  }

  pub cache_product-IsSound :
      (id : String) (p : GrpcProduct) (s : State)
      → IsFor id p.id
      → IsSound s
      → IsSound (cache_product id p s).1
  unfolding cache_product
  cache_product-IsSound id p s own h =
      put-IsSound id (some (product_to_map p)) s
        (λ m e.
          let k : product_to_map p ≡ m = cc in
          (own.0, own.1, sym (ap (λ (x : ProductMap). x.id) k) ∙ own.2))
        h

  pub delete_product_cache-IsSound :
      (id : String) (s : State) → IsSound s → IsSound (delete_product_cache id s).1
  unfolding delete_product_cache
  delete_product_cache-IsSound id s h = put-IsSound id none s (λ m e. cc) h

  pub spawn-Yields :
      (id : String) (p : GrpcProduct) → IsFor id p.id → Yields IsSound (spawn id p) (λ u. Unit {0})
  spawn-Yields id p own = record {
    at = λ w h. (
      record {
        entries = h.entries;
        waiting =
            All-append _ w.tables.jobs (record { id = id; product = p } ∷ []) h.waiting (own, tt);
      },
      tt,
    );
  }

  -- A call of the database touches neither the cache nor the jobs.
  pub on_tables-Yields :
      {A : Type 0} (m : Action Tables Error A) (Q : A → Type 0)
      → ((w : World Tables) → Holds Q (m w).0)
      → Yields IsSound (on_tables m) Q
  on_tables-Yields m Q k = record {
    at = λ w h. (
      record { entries = h.entries; waiting = h.waiting },
      k (record { tables = w.tables.tables; faults = w.faults }),
    );
  }
