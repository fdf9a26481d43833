-- ===== src/Payment/Laws.antt =====
-- What the payment service's statements do to the tables.
use microservices.Prelude.{
  ◌≡◌, refl, Bool, false, some, List, ==_refl, arith, Bool-cases, Option-cases, ◌⊎◌, inl, inr,
}
use microservices.Prelude.Rows.{any}
use microservices.Prelude.Rows.Laws.{update_last, find_last}
use microservices.Grpc.{Uuid, Code, internal}
use microservices.Postgres.{uuid_generate_v4}
use microservices.Effect.{World, Result, ok, err, failed}
use microservices.Effect.Laws.{query-cases}
use microservices.Payment.{
  Payment, Tables, Validated, new_row, with_row, with_status, is_refused, has_id, status_named,
  create_payment, get_payment_status_by_name, update_payment_status, create_db_payment,
  update_db_payment_status, process_create_and_update_payment,
}

-- The row that the service inserts for a validated request.
abbrev pub row_of : Validated → Uuid → Tables → Payment
row_of v s t = new_row v.order_uuid v.user_uuid v.amount s t

-- A payment can be created: the status PROCESSING is `s` and no constraint refuses the row.
pub record Insertable (v : Validated) (t : Tables) (s : Uuid) : Type 0 where
  pub processing : status_named "PROCESSING" t.statuses ≡ some s
  pub accepted : is_refused v.order_uuid v.amount t ≡ false

-- All that creating a payment and marking it SUCCEEDED can come to.
pub data Charge (v : Validated) (t : Tables) (r : Result Code Payment × World Tables) : Type 0 where
  not_created : r.0 ≡ err internal → r.1.tables ≡ t → Charge v t r
  left_processing :
      (s : Uuid)
      → Insertable v t s
      → r.0 ≡ err internal
      → r.1.tables ≡ with_row (row_of v s t) t
      → Charge v t r
  succeeded :
      (s done : Uuid)
      → Insertable v t s
      → status_named "SUCCEEDED" t.statuses ≡ some done
      → r.0 ≡ ok (with_status done (row_of v s t))
      → r.1.tables ≡ with_row (with_status done (row_of v s t)) t
      → Charge v t r

module _ (v : Validated) (t : Tables) where
  create_payment-cases :
      (create_payment v.order_uuid v.user_uuid v.amount t ≡ (err failed, t))
      ⊎ ((s : Uuid) × Insertable v t s
          × (create_payment v.order_uuid v.user_uuid v.amount t
              ≡ (ok (row_of v s t), with_row (row_of v s t) t)))
  unfolding create_payment
  create_payment-cases = elim (Option-cases (status_named "PROCESSING" t.statuses)) [
    | inl e ↦ inl (rw (e, create_payment) refl)
    | inr (s, e) ↦ elim (Bool-cases (is_refused v.order_uuid v.amount t)) [
      | inl b ↦ inl (rw (e, create_payment, b) refl)
      | inr b ↦ inr (s, record { processing = e; accepted = b }, rw (e, create_payment, b) refl)
    ]
  ]

  fresh_id : {s : Uuid} → Insertable v t s → any (has_id (uuid_generate_v4 t.pg)) t.payments ≡ false
  unfolding is_refused
  fresh_id i = ground arith

  -- The new row is the only one with its id, so the update changes it alone.
  update_created :
      (s done : Uuid)
      → Insertable v t s
      → update_payment_status (row_of v s t).id done (with_row (row_of v s t) t)
        ≡ (ok (with_status done (row_of v s t)), with_row (with_status done (row_of v s t)) t)
  unfolding update_payment_status
  update_created s done i =
      let fresh = fresh_id i in
      rw
        (
          update_last (has_id (uuid_generate_v4 t.pg)) (with_status done) t.payments (row_of v s t)
              fresh (==_refl (uuid_generate_v4 t.pg)),
          find_last (has_id (uuid_generate_v4 t.pg)) t.payments (with_status done (row_of v s t))
              fresh (==_refl (uuid_generate_v4 t.pg)),
        )
        refl

  update_db_payment_status-cases :
      (s : Uuid) (i : Insertable v t s) (fs : List Bool)
      → Charge v t (
          update_db_payment_status
            (row_of v s t)
            (record { tables = with_row (row_of v s t) t; faults = fs }))
  unfolding update_db_payment_status get_payment_status_by_name
  update_db_payment_status-cases s i fs =
      let start : World Tables = record { tables = with_row (row_of v s t) t; faults = fs } in
      elim (query-cases (get_payment_status_by_name "SUCCEEDED") start) [
        | inl (gs, e) ↦ left_processing s i (rw e refl) (rw e refl)
        | inr (gs, e) ↦ elim (Option-cases (status_named "SUCCEEDED" t.statuses)) [
          | inl n ↦ left_processing s i (rw (e, n) refl) (rw (e, n) refl)
          | inr (done, n) ↦
              elim (query-cases (update_payment_status (row_of v s t).id done)
                (record start { faults = gs })) [
                  | inl (hs, u) ↦ left_processing s i (rw (e, n, u) refl) (rw (e, n, u) refl)
                  | inr (hs, u) ↦
                      succeeded s done i n (rw (e, n, u, update_created s done i) refl)
                        (rw (e, n, u, update_created s done i) refl)
                ]
        ]
      ]

pub process_create_and_update_payment-cases :
    (v : Validated) (w : World Tables) → Charge v w.tables (process_create_and_update_payment v w)
unfolding process_create_and_update_payment create_db_payment
process_create_and_update_payment-cases v w =
    elim (query-cases (create_payment v.order_uuid v.user_uuid v.amount) w) [
      | inl (fs, e) ↦ not_created (rw e refl) (rw e refl)
      | inr (fs, e) ↦ elim (create_payment-cases v w.tables) [
        | inl c ↦ not_created (rw (e, c) refl) (rw (e, c) refl)
        | inr (s, i, c) ↦ rw (e, c) (update_db_payment_status-cases v w.tables s i fs)
      ]
    ]
