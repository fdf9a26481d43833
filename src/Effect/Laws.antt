-- ===== src/Effect/Laws.antt =====
-- What transactions and queries guarantee, whatever the schedule of faults.
use microservices.Prelude.{
  ◌∙◌, ap, sym, ◌⊎◌, inl, inr, Option, none, some, ◌≡◌, refl, Bool, true, false, List, [], ◌∷◌,
  arith,
}
use microservices.Grpc.{
  Platform, ContextState, live, ctx_canceled, ctx_deadline_exceeded, ctx_failed,
}
use microservices.Effect.{
  attempt, failed, query, guard, require, pure, continue, ◌>>=◌, rethrow, or_else, check_live,
  Result, ok, err, Error, World, Action, begin, commit, settle, transaction,
}

module _ {D A : Type 0} where
  -- What a transaction comes to: an error with the tables as they were, or the result and the
  -- tables of the body, run under some schedule.
  abbrev pub Settled : Action D Error A → D → Result Error A × World D → Type 0
  Settled body d r =
      ((r.1.tables ≡ d) × ((e : Error) × (r.0 ≡ err e)))
      ⊎ ((fs : List Bool) × (a : A) × (r.0 ≡ ok a)
          × ((body (record { tables = d; faults = fs })).0 ≡ ok a)
          × (r.1.tables ≡ (body (record { tables = d; faults = fs })).1.tables))

  commit-cases :
      (body : Action D Error A) (d : D) (fs : List Bool) (a : A) (w : World D)
      → body (record { tables = d; faults = fs }) ≡ (ok a, w)
      → (later : List Bool) → Settled body d (commit a d w.tables later)
  commit-cases body d fs a w e [] = inr (fs, a, refl, ap (λ r. r.0) e, ap (λ r. r.1.tables) (sym e))
  commit-cases body d fs a w e (false ∷ later) =
      inr (fs, a, refl, ap (λ r. r.0) e, ap (λ r. r.1.tables) (sym e))
  commit-cases body d fs a w e (true ∷ later) = inl (refl, (failed, refl))

  settle-cases :
      (body : Action D Error A) (d : D) (fs : List Bool) (r : Result Error A × World D)
      → body (record { tables = d; faults = fs }) ≡ r
      → Settled body d (settle d r)
  settle-cases body d fs (ok a, w) h = commit-cases body d fs a w h w.faults
  settle-cases body d fs (err e, w) h = inl (refl, (e, refl))

  begin-cases :
      (body : Action D Error A) (d : D) (faults : List Bool) → Settled body d (begin body d faults)
  begin-cases body d [] = settle-cases body d [] (body (record { tables = d; faults = [] })) refl
  begin-cases body d (false ∷ faults) =
      settle-cases body d faults (body (record { tables = d; faults = faults })) refl
  begin-cases body d (true ∷ faults) = inl (refl, (failed, refl))

  pub transaction-cases :
      (body : Action D Error A) (w : World D) → Settled body w.tables (transaction body w)
  unfolding transaction
  transaction-cases body w = begin-cases body w.tables w.faults

  attempt-cases :
      (q : D → Result Error A × D) (d : D) (faults : List Bool)
      → ((fs : List Bool) × (attempt q d faults ≡ (err failed, record { tables = d; faults = fs })))
        ⊎ ((fs : List Bool) × (attempt q d faults
              ≡ ((q d).0, record { tables = (q d).1; faults = fs })))
  attempt-cases q d [] = inr ([], refl)
  attempt-cases q d (false ∷ faults) = inr (faults, refl)
  attempt-cases q d (true ∷ faults) = inl (faults, refl)

  -- A statement either fails without effect or runs; the schedule only gets shorter.
  pub query-cases :
      (q : D → Result Error A × D) (w : World D)
      → ((fs : List Bool) × (query q w ≡ (err failed, record { tables = w.tables; faults = fs })))
        ⊎ ((fs : List Bool) × (query q w
              ≡ ((q w.tables).0, record { tables = (q w.tables).1; faults = fs })))
  unfolding query
  query-cases q w = attempt-cases q w.tables w.faults

module _ {D E A B : Type 0} where
  -- A step that was followed by a success was a success.
  pub record Ran (m : Action D E A) (f : A → Action D E B) (w : World D) (b : B) : Type 0 where
    pub value : A
    pub mid : World D
    pub first : m w ≡ (ok value, mid)
    pub rest : (f value mid).0 ≡ ok b
    pub same : (m >>= f) w ≡ f value mid

  continue-ok :
      (m : Action D E A) (f : A → Action D E B) (w : World D) (b : B) (r : Result E A × World D)
      → m w ≡ r
      → (continue r f).0 ≡ ok b
      → Ran m f w b
  continue-ok m f w b (ok a, w') e h = record {
    value = a;
    mid = w';
    first = e;
    rest = h;
    same = rw e refl;
  }
  continue-ok m f w b (err x, w') e h = cc

  pub bind-ok :
      (m : Action D E A) (f : A → Action D E B) (w : World D) {b : B}
      → ((m >>= f) w).0 ≡ ok b
      → Ran m f w b
  bind-ok m f w {b} h = continue-ok m f w b (m w) refl h

module _ {D E A : Type 0} where
  pub require-ok :
      (o : Option A) (e : E) (w : World D) {a : A} {w' : World D}
      → require o e w ≡ (ok a, w')
      → (o ≡ some a) × (w ≡ w')
  require-ok none e w h = absurd (err-ne-ok (ap (λ r. r.0) h))
    where
      err-ne-ok : {x : A} → ◌≡◌ {A = Result E A} (err e) (ok x) → ⊥
      err-ne-ok k = cc
  require-ok (some x) e w h = ground arith

module _ {D A : Type 0} where
  pub query-ok :
      (q : D → Result Error A × D) (w : World D) {a : A} {w' : World D}
      → query q w ≡ (ok a, w')
      → q w.tables ≡ (ok a, w'.tables)
  query-ok q w h = elim (query-cases q w) [
    | inl (fs, e) ↦ cc (e, h)
    | inr (fs, e) ↦ let k = sym e ∙ h in λ i. ((k i).0, (k i).1.tables)
  ]

  pub query-ok_tables :
      (q : D → Result Error A × D) (w : World D) {a : A}
      → (query q w).0 ≡ ok a
      → ((q w.tables).0 ≡ ok a) × ((query q w).1.tables ≡ (q w.tables).1)
  query-ok_tables q w h = elim (query-cases q w) [
    | inl (fs, e) ↦ let bad = rw e at h in cc
    | inr (fs, e) ↦ (sym (ap (λ r. r.0) e) ∙ h, ap (λ r. r.1.tables) e)
  ]

-- `m` keeps `P`, whatever it returns.
pub record Keeps {D E A : Type 0} (P : D → Type 0) (m : Action D E A) : Type 0 where
  pub at : (w : World D) → P w.tables → P (m w).1.tables

module _ {D E A : Type 0} {P : D → Type 0} where
  pub Keeps-pure : (a : A) → Keeps P (pure {D = D} {E = E} a)
  Keeps-pure a = record { at = λ w h. h }

  pub Keeps-require : (o : Option A) (e : E) → Keeps P (require {D = D} o e)
  Keeps-require none e = record { at = λ w h. h }
  Keeps-require (some a) e = record { at = λ w h. h }

module _ {D E : Type 0} {P : D → Type 0} where
  pub Keeps-guard : (b : Bool) (e : E) → Keeps P (guard {D = D} b e)
  Keeps-guard true e = record { at = λ w h. h }
  Keeps-guard false e = record { at = λ w h. h }

module _ {D E A B : Type 0} {P : D → Type 0} where
  pub Keeps-continue :
      (f : A → Action D E B) (r : Result E A × World D)
      → ((a : A) → Keeps P (f a))
      → P r.1.tables
      → P (continue r f).1.tables
  Keeps-continue f (ok a, w) kf h = (kf a).at w h
  Keeps-continue f (err e, w) kf h = h

  pub Keeps-bind :
      (m : Action D E A) (f : A → Action D E B)
      → Keeps P m
      → ((a : A) → Keeps P (f a))
      → Keeps P (m >>= f)
  Keeps-bind m f km kf = record { at = λ w h. Keeps-continue f (m w) kf (km.at w h) }

module _ {D E F A : Type 0} where
  rethrow-tables : (f : E → F) (r : Result E A × World D) → (rethrow f r).1.tables ≡ r.1.tables
  rethrow-tables f (ok a, w) = refl
  rethrow-tables f (err e, w) = refl

module _ {D E F A : Type 0} {P : D → Type 0} where
  pub Keeps-or_else : (m : Action D E A) (f : E → F) → Keeps P m → Keeps P (or_else m f)
  Keeps-or_else m f k = record { at = λ w h. rw rethrow-tables (k.at w h) }

module _ {D A : Type 0} {P : D → Type 0} where
  pub Keeps-query : (q : D → Result Error A × D) → ((d : D) → P d → P (q d).1) → Keeps P (query q)
  Keeps-query q k = record {
    at = λ w h. elim (query-cases q w) [ inl (fs, e) ↦ rw e h | inr (fs, e) ↦ rw e (k w.tables h) ];
  }

  pub Keeps-transaction : (body : Action D Error A) → Keeps P body → Keeps P (transaction body)
  Keeps-transaction body k = record {
    at = λ w h. elim (transaction-cases body w) [
      | inl (e, failed_with) ↦ rw e h
      | inr (fs, a, done, ran, e) ↦ rw e (k.at (record { tables = w.tables; faults = fs }) h)
    ];
  }

pub Keeps-check_live :
    {D : Type 0} {P : D → Type 0} (pf : Platform) (c : ContextState)
    → Keeps P (check_live {D = D} pf c)
unfolding check_live
Keeps-check_live pf live = record { at = λ w h. h }
Keeps-check_live pf _ = record { at = λ w h. h }

-- The steps that change nothing, and the call whose error is turned into another one.
pub check_live-ok :
    {D : Type 0} (pf : Platform) (ctx : ContextState) (w w' : World D) (u : Unit {0})
    → check_live pf ctx w ≡ (ok u, w')
    → w ≡ w'
unfolding check_live
check_live-ok pf live w w' u h = λ i. (h i).1
check_live-ok pf ctx_canceled w w' u h = let bad = ap (λ r. r.0) h in cc
check_live-ok pf ctx_deadline_exceeded w w' u h = let bad = ap (λ r. r.0) h in cc
check_live-ok pf ctx_failed w w' u h = let bad = ap (λ r. r.0) h in cc

pub guard-ok :
    {D E : Type 0} (b : Bool) (e : E) (w w' : World D) (u : Unit {0})
    → guard b e w ≡ (ok u, w')
    → (b ≡ true) × (w ≡ w')
guard-ok true e w w' u h = (refl, λ i. (h i).1)
guard-ok false e w w' u h = let bad = ap (λ r. r.0) h in cc

pub rethrow-ok :
    {D E F A : Type 0} (f : E → F) (r : Result E A × World D) (a : A) (w : World D)
    → rethrow f r ≡ (ok a, w)
    → r ≡ (ok a, w)
rethrow-ok f (ok x, v) a w h = ground arith
rethrow-ok f (err e, v) a w h = let bad = ap (λ x. x.0) h in cc
