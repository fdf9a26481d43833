-- ===== src/Effect/Yields.antt =====
-- What an action that starts in a state with a property ends in: a state with the property, and a
-- value with another.
use microservices.Prelude.{◌≡◌, refl, inl, inr, Option, none, some}
use microservices.Grpc.{Platform, ContextState, live}
use microservices.Effect.{
  Result, ok, err, Error, World, Action, continue, ◌>>=◌, pure, require, or_else, rethrow, query,
  check_live,
}
use microservices.Effect.Laws.{query-cases}

abbrev pub Holds : {E A : Type 0} → (A → Type 0) → Result E A → Type 0
Holds Q (ok a) = Q a
Holds Q (err e) = Unit {0}

pub record Yields {D E A : Type 0} (P : D → Type 0) (m : Action D E A) (Q : A → Type 0)
    : Type 0 where
  pub at : (w : World D) → P w.tables → P (m w).1.tables × Holds Q (m w).0

pub Holds-ok : {E A : Type 0} (Q : A → Type 0) (r : Result E A) (a : A) → Holds Q r → r ≡ ok a → Q a
Holds-ok Q (ok b) a h e = let k : b ≡ a = cc in rw k at h
Holds-ok Q (err b) a h e = cc

module _ {D E A : Type 0} {P : D → Type 0} where
  pub Yields-pure : (a : A) (Q : A → Type 0) → Q a → Yields P (pure {D = D} {E = E} a) Q
  Yields-pure a Q q = record { at = λ w h. (h, q) }

  pub Yields-require : (o : Option A) (e : E) → Yields P (require {D = D} o e) (λ a. o ≡ some a)
  Yields-require none e = record { at = λ w h. (h, tt) }
  Yields-require (some a) e = record { at = λ w h. (h, refl) }

module _ {D E A B : Type 0} {P : D → Type 0} where
  Yields-continue :
      (f : A → Action D E B) (Q : A → Type 0) (R : B → Type 0) (r : Result E A) (w : World D)
      → P w.tables
      → Holds Q r
      → ((a : A) → Q a → Yields P (f a) R)
      → P (continue (r, w) f).1.tables × Holds R (continue (r, w) f).0
  Yields-continue f Q R (ok a) w h q k = (k a q).at w h
  Yields-continue f Q R (err e) w h q k = (h, tt)

  pub Yields-bind :
      (m : Action D E A) (f : A → Action D E B) (Q : A → Type 0) (R : B → Type 0)
      → Yields P m Q
      → ((a : A) → Q a → Yields P (f a) R)
      → Yields P (m >>= f) R
  Yields-bind m f Q R y k = record {
    at = λ w h. let (p, q) = y.at w h in Yields-continue f Q R (m w).0 (m w).1 p q k;
  }

module _ {D E F A : Type 0} where
  Yields-rethrow :
      (P : D → Type 0) (f : E → F) (Q : A → Type 0) (r : Result E A) (w : World D)
      → P w.tables
      → Holds Q r
      → P (rethrow f (r, w)).1.tables × Holds Q (rethrow f (r, w)).0
  Yields-rethrow P f Q (ok a) w h q = (h, q)
  Yields-rethrow P f Q (err e) w h q = (h, tt)

  pub Yields-or_else :
      {P : D → Type 0} (m : Action D E A) (f : E → F) (Q : A → Type 0)
      → Yields P m Q
      → Yields P (or_else m f) Q
  Yields-or_else {P} m f Q y = record {
    at = λ w h. let (p, q) = y.at w h in Yields-rethrow P f Q (m w).0 (m w).1 p q;
  }

module _ {D A : Type 0} {P : D → Type 0} where
  pub Yields-query :
      (q : D → Result Error A × D) (Q : A → Type 0)
      → ((d : D) → P d → P (q d).1 × Holds Q (q d).0)
      → Yields P (query q) Q
  Yields-query q Q k = record {
    at = λ w h. elim (query-cases q w) [
      | inl (fs, e) ↦ rw e (h, tt)
      | inr (fs, e) ↦ rw e (k w.tables h)
    ];
  }

pub Yields-check_live :
    {D : Type 0} {P : D → Type 0} (pf : Platform) (c : ContextState)
    → Yields P (check_live {D = D} pf c) (λ u. Unit {0})
unfolding check_live
Yields-check_live pf live = record { at = λ w h. (h, tt) }
Yields-check_live pf _ = record { at = λ w h. (h, tt) }

Holds-map :
    {E A : Type 0} (Q R : A → Type 0) (r : Result E A)
    → ((a : A) → Q a → R a)
    → Holds Q r
    → Holds R r
Holds-map Q R (ok a) f h = f a h
Holds-map Q R (err e) f h = tt

module _ {D E A : Type 0} {P : D → Type 0} {Q R : A → Type 0} where
  pub Yields-weaken : {m : Action D E A} → Yields P m Q → ((a : A) → Q a → R a) → Yields P m R
  Yields-weaken {m} y f = record {
    at = λ w h. let (p, q) = y.at w h in (p, Holds-map Q R (m w).0 f q);
  }
