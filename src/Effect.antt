-- ===== src/Effect.antt =====
-- Handlers as state passing. A service's world holds its database and a schedule of faults: the
-- first entry says whether the next call of the database or of another remote system fails.
pub mod Laws
pub mod Yields
use microservices.Grpc.{
  Platform, Code, internal, ContextState, live, ctx_canceled, ctx_deadline_exceeded, ctx_failed,
}
use microservices.Prelude.{String, Bool, true, false, Option, none, some, List, [], ◌∷◌}

pub data Result {ℓ κ} (E : Type ℓ) (A : Type κ) : Type (ℓ ⊔ κ) where
  ok : A → Result E A
  err : E → Result E A

-- The errors of the repositories: pgx.ErrNoRows, a value that a Scan refuses, and all others.
pub data Error : Type 0 where
  no_rows invalid failed : Error

pub record World (D : Type 0) : Type 0 where
  pub tables : D
  pub faults : List Bool

abbrev pub Action : Type 0 → Type 0 → Type 0 → Type 0
Action D E A = World D → Result E A × World D

module _ {D E A B : Type 0} where
  abbrev pub continue : Result E A × World D → (A → Action D E B) → Result E B × World D
  continue (ok a, w) f = f a w
  continue (err e, w) f = (err e, w)

  infixl 10 ◌>>=◌ ◌>>◌
  abbrev pub ◌>>=◌ : Action D E A → (A → Action D E B) → Action D E B
  ◌>>=◌ m f w = continue (m w) f

  abbrev pub ◌>>◌ : Action D E A → Action D E B → Action D E B
  m >> n = m >>= λ _. n

module _ {D E : Type 0} where
  abbrev pub guard : Bool → E → Action D E (Unit {0})
  guard true e w = (ok tt, w)
  guard false e w = (err e, w)

module _ {D E A : Type 0} where
  abbrev pub pure : A → Action D E A
  pure a w = (ok a, w)

  abbrev pub raise : E → Action D E A
  raise e w = (err e, w)

  -- A test that ends the handler by an error, such as `if id == "" { return nil, ... }`.
  abbrev pub require : Option A → E → Action D E A
  require none e w = (err e, w)
  require (some a) e w = (ok a, w)

module _ {D E F A : Type 0} where
  -- The error of a call is turned into another one, as by `status.Errorf`.
  abbrev pub rethrow : (E → F) → Result E A × World D → Result F A × World D
  rethrow f (ok a, w) = (ok a, w)
  rethrow f (err e, w) = (err (f e), w)

  abbrev pub or_else : Action D E A → (E → F) → Action D F A
  or_else m f w = rethrow f (m w)

module _ {D A : Type 0} where
  abbrev run_query : (D → Result Error A × D) → D → List Bool → Result Error A × World D
  run_query q d faults = let (r, d') = q d in (r, record { tables = d'; faults = faults })

  abbrev attempt : (D → Result Error A × D) → D → List Bool → Result Error A × World D
  attempt q d [] = run_query q d []
  attempt q d (false ∷ faults) = run_query q d faults
  attempt q d (true ∷ faults) = (err failed, record { tables = d; faults = faults })

  -- One statement: it fails without effect where the schedule says so.
  unfoldable pub query : (D → Result Error A × D) → Action D Error A
  query q w = attempt q w.tables w.faults

module _ {D A : Type 0} where
  abbrev commit : A → D → D → List Bool → Result Error A × World D
  commit a before after [] = (ok a, record { tables = after; faults = [] })
  commit a before after (false ∷ faults) = (ok a, record { tables = after; faults = faults })
  commit a before after (true ∷ faults) = (err failed, record { tables = before; faults = faults })

  abbrev settle : D → Result Error A × World D → Result Error A × World D
  settle before (ok a, w) = commit a before w.tables w.faults
  settle before (err e, w) = (err e, record w { tables = before })

  abbrev begin : Action D Error A → D → List Bool → Result Error A × World D
  begin body d [] = settle d (body (record { tables = d; faults = [] }))
  begin body d (false ∷ faults) = settle d (body (record { tables = d; faults = faults }))
  begin body d (true ∷ faults) = (err failed, record { tables = d; faults = faults })

  -- BEGIN; body; COMMIT, with a deferred ROLLBACK: an error of the body or of the commit leaves the
  -- tables as they were.
  unfoldable pub transaction : Action D Error A → Action D Error A
  transaction body w = begin body w.tables w.faults

module _ {D : Type 0} where
  -- `if err := ctx.Err(); err != nil { return nil, status.FromContextError(err).Err() }`.
  unfoldable pub check_live : Platform → ContextState → Action D Code (Unit {0})
  check_live pf live w = (ok tt, w)
  check_live pf c w = (err (pf.from_context_error c), w)

-- The row that a SELECT of one row found.
abbrev pub one_row : {A : Type 0} → Option A → Result Error A
one_row none = err no_rows
one_row (some a) = ok a

abbrev pub to_internal : Error → Code
to_internal e = internal
