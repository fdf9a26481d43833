-- ===== src/Payment/Safety.antt =====
-- One payment for each order, what a failed call leaves, and reading a payment back.
use microservices.Prelude.{
  ◌≡◌, refl, ap, ◌∙◌, Bool, true, false, some, List, [], ◌∷◌, ◌++◌, ==_refl, arith, ◌⊎◌, inl, inr,
}
use microservices.Prelude.Rows.{any}
use microservices.Prelude.Rows.Laws.{any-append, find_last}
use microservices.Grpc.{Platform, Uuid, Code, internal, ContextState, live}
use microservices.Effect.{World, Result, ok, err, query, check_live}
use microservices.Payment.{
  Payment, Tables, Validated, GrpcPayment, ProcessPaymentRequest, with_status, has_id, has_order,
  map_repository_to_grpc, process_payment, get_payment, get_payment_by_id,
}
use microservices.Payment.Laws.{row_of, Insertable, not_created, left_processing, succeeded}
use microservices.Payment.Charges.{
  Accepts, Processed, stopped, charged, process_payment-cases, require-world, refused-id,
  process_payment-ok,
}

-- No two payments of the table are for one order.
abbrev pub HasDistinctOrders : List Payment → Type 0
HasDistinctOrders [] = Unit
HasDistinctOrders (p ∷ ps) = (any (has_order p.order_id) ps ≡ false) × HasDistinctOrders ps

HasDistinctOrders-append :
    (ps : List Payment) (p : Payment)
    → HasDistinctOrders ps
    → any (has_order p.order_id) ps ≡ false
    → HasDistinctOrders (ps ++ p ∷ [])
HasDistinctOrders-append [] p d h = (refl, tt)
HasDistinctOrders-append (q ∷ ps) p (f, d) h =
    (rw any-append (ground (arith)), HasDistinctOrders-append ps p d (ground arith))

-- The error of a call that is for an order with a payment.
abbrev pub Blocked : Platform → ContextState → ProcessPaymentRequest → World Tables → Type 0
Blocked pf ctx req w =
    (c : Code) × ((process_payment pf ctx req w).0 ≡ err c)
    × ((process_payment pf ctx req w).1.tables ≡ w.tables)

module _ (pf : Platform) where
  taken_refused :
      (req : ProcessPaymentRequest) (w : World Tables) (order : Uuid) (v : Validated) (s : Uuid)
      → pf.scan_uuid req.order_id ≡ some order
      → any (has_order order) w.tables.payments ≡ true
      → Accepts pf req v
      → Insertable v w.tables s
      → ⊥
  taken_refused req w order v s o taken a i =
      let free = (refused-id pf v.order_uuid v.amount w.tables i.accepted).1 in
      let same : order ≡ v.order_uuid = cc (o, a.order) in
      let taken' = rw same at taken in cc (taken', free)

  Processed-Blocked :
      (req : ProcessPaymentRequest) (w : World Tables) (r : Result Code GrpcPayment × World Tables)
      (order : Uuid)
      → pf.scan_uuid req.order_id ≡ some order
      → any (has_order order) w.tables.payments ≡ true
      → Processed pf req w r
      → (c : Code) × (r.0 ≡ err c) × (r.1.tables ≡ w.tables)
  Processed-Blocked req w r order o taken (stopped c e) = (c, rw e refl, rw e refl)
  Processed-Blocked req w r order o taken (charged v (q, u) a (not_created e same) eq) =
      (internal, rw (eq, e) refl, rw (eq, e, same) refl)
  Processed-Blocked req w r order o taken (charged v (q, u) a (left_processing s i e same) eq) =
      absurd (taken_refused req w order v s o taken a i)
  Processed-Blocked req w r order o taken (charged v (q, u) a (succeeded s done i n e same) eq) =
      absurd (taken_refused req w order v s o taken a i)

  -- An order that has a payment, whatever its status, is never charged again: every call for it
  -- fails and changes nothing.
  pub process_payment-Blocked :
      (ctx : ContextState) (req : ProcessPaymentRequest) (w : World Tables) (order : Uuid)
      → pf.scan_uuid req.order_id ≡ some order
      → any (has_order order) w.tables.payments ≡ true
      → Blocked pf ctx req w
  process_payment-Blocked ctx req w order o taken =
      Processed-Blocked req w (process_payment pf ctx req w) order o taken
        (process_payment-cases pf ctx req w)

  Processed-HasDistinctOrders :
      (req : ProcessPaymentRequest) (w : World Tables) (r : Result Code GrpcPayment × World Tables)
      → HasDistinctOrders w.tables.payments
      → Processed pf req w r
      → HasDistinctOrders r.1.tables.payments
  Processed-HasDistinctOrders req w r d (stopped c e) = rw e d
  Processed-HasDistinctOrders req w r d (charged v (q, u) a (not_created e same) eq) =
      rw (eq, e, same) d
  Processed-HasDistinctOrders req w r d (charged v (q, u) a (left_processing s i e same) eq) =
      rw (eq, e, same)
        (HasDistinctOrders-append w.tables.payments (row_of v s w.tables) d
          (refused-id pf v.order_uuid v.amount w.tables i.accepted).1)
  Processed-HasDistinctOrders req w r d (charged v (q, u) a (succeeded s done i n e same) eq) =
      let row = with_status done (row_of v s w.tables) in
      rw (eq, e, require-world pf (map_repository_to_grpc pf row) u internal, same)
        (HasDistinctOrders-append w.tables.payments row d
          (refused-id pf v.order_uuid v.amount w.tables i.accepted).1)

  -- Every call, failed or not, keeps at most one payment for each order.
  pub process_payment-HasDistinctOrders :
      (ctx : ContextState) (req : ProcessPaymentRequest) (w : World Tables)
      → HasDistinctOrders w.tables.payments
      → HasDistinctOrders (process_payment pf ctx req w).1.tables.payments
  process_payment-HasDistinctOrders ctx req w d =
      Processed-HasDistinctOrders req w (process_payment pf ctx req w) d
        (process_payment-cases pf ctx req w)

  any_last :
      (p : Payment → Bool) (xs : List Payment) (y : Payment)
      → p y ≡ true
      → any p (xs ++ y ∷ []) ≡ true
  any_last p xs y h = rw (any-append, h) (ground arith)

  Processed-err :
      (req : ProcessPaymentRequest) (w : World Tables) (r : Result Code GrpcPayment × World Tables)
      (c : Code)
      → r.0 ≡ err c
      → Processed pf req w r
      → (r.1.tables ≡ w.tables)
        ⊎ ((order : Uuid) × (pf.scan_uuid req.order_id ≡ some order)
            × (any (has_order order) r.1.tables.payments ≡ true))
  Processed-err req w r c h (stopped k e) = inl (rw e refl)
  Processed-err req w r c h (charged v (q, u) a (not_created e same) eq) =
      inl (rw (eq, e, same) refl)
  Processed-err req w r c h (charged v (q, u) a (left_processing s i e same) eq) = inr (
    v.order_uuid,
    a.order,
    rw (eq, e, same)
        (any_last (has_order v.order_uuid) w.tables.payments (row_of v s w.tables)
          (==_refl v.order_uuid)),
  )
  Processed-err req w r c h (charged v (q, u) a (succeeded s done i n e same) eq) =
      let row = with_status done (row_of v s w.tables) in
      inr (
        v.order_uuid,
        a.order,
        rw (eq, e, require-world pf (map_repository_to_grpc pf row) u internal, same)
            (any_last (has_order v.order_uuid) w.tables.payments row (==_refl v.order_uuid)),
      )

  -- A call that fails has changed nothing, or has left a payment that makes every later call for
  -- the order fail without effect: a retry cannot complete the payment.
  pub process_payment-err :
      (ctx : ContextState) (req : ProcessPaymentRequest) (w : World Tables) (c : Code)
      → (process_payment pf ctx req w).0 ≡ err c
      → ((process_payment pf ctx req w).1.tables ≡ w.tables)
        ⊎ ((ctx' : ContextState) (req' : ProcessPaymentRequest) (w' : World Tables)
            → w'.tables ≡ (process_payment pf ctx req w).1.tables
            → req'.order_id ≡ req.order_id
            → Blocked pf ctx' req' w')
  process_payment-err ctx req w c h =
      elim (Processed-err req w (process_payment pf ctx req w) c h
        (process_payment-cases pf ctx req w)) [
          | inl same ↦ inl same
          | inr (order, o, taken) ↦
              inr (λ ctx' req' w' e k.
                process_payment-Blocked ctx' req' w' order (rw k o) (rw e taken))
        ]

  id-map_repository_to_grpc :
      (p : Payment) (g : GrpcPayment)
      → map_repository_to_grpc pf p ≡ some g
      → g.id ≡ pf.uuid_string p.id
  unfolding map_repository_to_grpc
  id-map_repository_to_grpc p g h = ground arith

  -- The payment that a successful call returned is what GetPayment returns for its id, if the text
  -- of a UUID is read back as that UUID and the database answers.
  pub get_payment-process_payment :
      (ctx : ContextState) (req : ProcessPaymentRequest) (w : World Tables) (g : GrpcPayment)
      → ((u : Uuid) → pf.scan_uuid (pf.uuid_string u) ≡ some u)
      → (process_payment pf ctx req w).0 ≡ ok g
      → (get_payment pf live g.id
          (record { tables = (process_payment pf ctx req w).1.tables; faults = [] })).0
        ≡ ok g
  unfolding get_payment check_live get_payment_by_id query
  get_payment-process_payment ctx req w g text h =
      let r = process_payment-ok pf ctx req w g h in
      let read_back = ap pf.scan_uuid (id-map_repository_to_grpc r.row g r.reply) ∙ text r.row.id in
      rw
        (
          read_back,
          r.added,
          find_last (has_id r.row.id) w.tables.payments r.row r.new_id (==_refl r.row.id),
          r.reply,
        )
        refl
