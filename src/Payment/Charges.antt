-- ===== src/Payment/Charges.antt =====
-- What a caller of ProcessPayment can rely on.
use microservices.Prelude.{
  ◌≡◌, refl, false, Option, none, some, [], ◌∷◌, ◌++◌, arith, Bool-cases, Option-cases, ◌⊎◌, inl,
  inr,
}
use microservices.Prelude.Rows.{any}
use microservices.Grpc.{
  Platform, Uuid, Numeric, Code, internal, invalid_argument, ContextState, live,
}
use microservices.Postgres.{uuid_generate_v4}
use microservices.Effect.{World, Action, Result, ok, err, continue, require, check_live}
use microservices.Payment.{
  Payment, Tables, Validated, GrpcPayment, ProcessPaymentRequest, with_status, is_refused, has_id,
  has_order, status_named, process_create_and_update_payment, validate_process_payment_request,
  map_repository_to_grpc, process_payment,
}
use microservices.Payment.Laws.{
  row_of, Charge, not_created, left_processing, succeeded, process_create_and_update_payment-cases,
}

module _ (pf : Platform) where
  -- The request passes every check, with these values read from it.
  pub record Accepts (req : ProcessPaymentRequest) (v : Validated) : Type 0 where
    pub order : pf.scan_uuid req.order_id ≡ some v.order_uuid
    pub user : pf.scan_uuid req.user_id ≡ some v.user_uuid
    pub amount : pf.scan_money req.amount ≡ some v.amount
    pub positive : pf.le_zero req.amount ≡ false

  validate_process_payment_request-cases :
      (req : ProcessPaymentRequest) (w : World Tables)
      → (validate_process_payment_request pf req w ≡ (err invalid_argument, w))
        ⊎ ((v : Validated) × Accepts req v
            × (validate_process_payment_request pf req w ≡ (ok v, w)))
  unfolding validate_process_payment_request
  validate_process_payment_request-cases req w = elim (Option-cases (pf.scan_uuid req.order_id)) [
    | inl o ↦ inl (rw o refl)
    | inr (order, o) ↦ elim (Option-cases (pf.scan_uuid req.user_id)) [
      | inl u ↦ inl (rw (o, u) refl)
      | inr (user, u) ↦ elim (Option-cases (pf.scan_money req.amount)) [
        | inl a ↦ inl (rw (o, u, a) refl)
        | inr (amount, a) ↦ elim (Bool-cases (pf.le_zero req.amount)) [
          | inl z ↦ inl (rw (o, u, a, z) refl)
          | inr z ↦ inr (
            record { order_uuid = order; user_uuid = user; amount = amount },
            record { order = o; user = u; amount = a; positive = z },
            rw (o, u, a, z) refl,
          )
        ]
      ]
    ]
  ]

  -- Everything that a call of ProcessPayment can come to.
  pub data Processed (req : ProcessPaymentRequest) (w : World Tables)
      (r : Result Code GrpcPayment × World Tables) : Type 0 where
    stopped : (c : Code) → r ≡ (err c, w) → Processed req w r
    charged :
        (v : Validated) (c : Result Code Payment × World Tables)
        → Accepts req v
        → Charge v w.tables c
        → r ≡ continue c (λ p. require (map_repository_to_grpc pf p) internal)
        → Processed req w r

  process_payment_live :
      (req : ProcessPaymentRequest) (w : World Tables)
      → Processed req w (process_payment pf live req w)
  unfolding process_payment check_live
  process_payment_live req w = elim (validate_process_payment_request-cases req w) [
    | inl e ↦ stopped invalid_argument (rw e refl)
    | inr (v, a, e) ↦
        charged v (process_create_and_update_payment v w) a
          (process_create_and_update_payment-cases v w) (rw e refl)
  ]

  pub process_payment-cases :
      (ctx : ContextState) (req : ProcessPaymentRequest) (w : World Tables)
      → Processed req w (process_payment pf ctx req w)
  unfolding process_payment check_live
  process_payment-cases live req w = process_payment_live req w
  process_payment-cases ctx req w = stopped (pf.from_context_error ctx) refl

  -- The row that a successful call leaves, and its reply.
  pub record Recorded (req : ProcessPaymentRequest) (t t' : Tables) (g : GrpcPayment) : Type 0 where
    pub row : Payment
    pub added : t'.payments ≡ t.payments ++ row ∷ []
    pub order : pf.scan_uuid req.order_id ≡ some row.order_id
    pub user : pf.scan_uuid req.user_id ≡ some row.user_id
    pub amount : pf.scan_money req.amount ≡ some row.amount
    pub status : status_named "SUCCEEDED" t.statuses ≡ some row.status
    pub reply : map_repository_to_grpc pf row ≡ some g
    pub new_id : any (has_id row.id) t.payments ≡ false
    pub new_order : any (has_order row.order_id) t.payments ≡ false

  require-ok :
      {A : Type 0} (o : Option A) (w : World Tables) (c : Code) {a : A}
      → (require o c w).0 ≡ ok a
      → o ≡ some a
  require-ok none w c h = cc
  require-ok (some a) w c h = ground arith

  pub require-world :
      {A : Type 0} (o : Option A) (w : World Tables) (c : Code) → (require o c w).1 ≡ w
  require-world none w c = refl
  require-world (some a) w c = refl

  pub refused-id :
      (order : Uuid) (amount : Numeric) (t : Tables)
      → is_refused order amount t ≡ false
      → (any (has_id (uuid_generate_v4 t.pg)) t.payments ≡ false)
        × (any (has_order order) t.payments ≡ false)
  unfolding is_refused
  refused-id order amount t h = ground arith

  err-ne-ok :
      (w : World Tables) (f : Payment → Action Tables Code GrpcPayment) {r : Result Code Payment}
      {c : Code} {g : GrpcPayment}
      → r ≡ err c
      → (continue (r, w) f).0 ≡ ok g
      → ⊥
  err-ne-ok w f e h = let bad = rw e at h in cc

  Charge-Recorded :
      (req : ProcessPaymentRequest) (t : Tables) (g : GrpcPayment) (v : Validated)
      (c : Result Code Payment × World Tables)
      → Accepts req v
      → Charge v t c
      → (continue c (λ p. require (map_repository_to_grpc pf p) internal)).0 ≡ ok g
      → Recorded req t (continue c (λ p. require (map_repository_to_grpc pf p) internal)).1.tables g
  Charge-Recorded req t g v (r, w) a (not_created e same) h = absurd (err-ne-ok w _ e h)
  Charge-Recorded req t g v (r, w) a (left_processing s i e same) h = absurd (err-ne-ok w _ e h)
  Charge-Recorded req t g v (r, w) a (succeeded s done i n e same) h =
      let row = with_status done (row_of v s t) in
      rw (e, require-world (map_repository_to_grpc pf row) w internal, same)
        (record {
          row = row;
          added = refl;
          order = a.order;
          user = a.user;
          amount = a.amount;
          status = n;
          reply = require-ok (map_repository_to_grpc pf row) w internal (rw e at h);
          new_id = (refused-id v.order_uuid v.amount t i.accepted).0;
          new_order = (refused-id v.order_uuid v.amount t i.accepted).1;
        })

  -- A successful call adds exactly one payment, with the status SUCCEEDED and the values that the
  -- request spells, for an order that had none; the reply is that row. Nothing else changes among
  -- the payments.
  pub process_payment-ok :
      (ctx : ContextState) (req : ProcessPaymentRequest) (w : World Tables) (g : GrpcPayment)
      → (process_payment pf ctx req w).0 ≡ ok g
      → Recorded req w.tables (process_payment pf ctx req w).1.tables g
  process_payment-ok ctx req w g h = elim (process_payment-cases ctx req w) [
    | stopped c e ↦ cc (e, h)
    | charged v c a charge e ↦ rw e (Charge-Recorded req w.tables g v c a charge (rw e at h))
  ]
