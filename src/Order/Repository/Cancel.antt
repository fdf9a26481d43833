-- ===== src/Order/Repository/Cancel.antt =====
-- CancelOrder looks up a status that the migrations do not define.
use microservices.Prelude.{String, ◌≡◌, refl, ap, ◌∙◌, none, List, [], ◌∷◌, Option-cases, inl, inr}
use microservices.Grpc.{Platform, Uuid}
use microservices.Effect.{World, Result, err, Error, no_rows, failed, invalid}
use microservices.Effect.Laws.{query-cases, transaction-cases}
use microservices.Order.{OrderStatus, Tables, status_named, get_order_status_by_name}
use microservices.Order.Repository.{cancel_order, cancel_order_tx}

-- The rows that db/migrations/000001 inserts into order_statuses, with any ids.
abbrev pub migrated_statuses : Uuid → Uuid → Uuid → List OrderStatus
migrated_statuses created delivered cancelled =
    record { id = created; name = "CREATED" }
    ∷ record { id = delivered; name = "DELIVERED" }
    ∷ record { id = cancelled; name = "CANCELLED" }
    ∷ []

-- An action that ends in an error whatever the faults, and leaves the tables.
abbrev pub Fails : {A : Type 0} → Result Error A × World Tables → Tables → Type 0
Fails r t = ((e : Error) × (r.0 ≡ err e)) × (r.1.tables ≡ t)

module _ (pf : Platform) where
  cancel_order_tx-err :
      (order_id : String) (w : World Tables)
      → status_named "CANCELED" w.tables.statuses ≡ none
      → (e : Error) × ((cancel_order_tx pf order_id w).0 ≡ err e)
  unfolding cancel_order_tx get_order_status_by_name
  cancel_order_tx-err order_id w h = elim (Option-cases (pf.scan_uuid order_id)) [
    | inl s ↦ (invalid, rw s refl)
    | inr (order, s) ↦ elim (query-cases (get_order_status_by_name "CANCELED") w) [
      | inl (fs, e) ↦ (failed, rw (s, e) refl)
      | inr (fs, e) ↦ (no_rows, rw (s, e, h) refl)
    ]
  ]

  -- CancelOrder looks up the status CANCELED, with one L. Where no such status exists it fails,
  -- whatever the order, and leaves the order and its event as they were.
  pub cancel_order-Fails :
      (order_id : String) (w : World Tables)
      → status_named "CANCELED" w.tables.statuses ≡ none
      → Fails (cancel_order pf order_id w) w.tables
  unfolding cancel_order
  cancel_order-Fails order_id w h = elim (transaction-cases (cancel_order_tx pf order_id) w) [
    | inl (same, e) ↦ (e, same)
    | inr (fs, a, done, ran, after) ↦
        let start : World Tables = record { tables = w.tables; faults = fs } in
        let (e, bad) = cancel_order_tx-err order_id start h in cc (ran, bad)
  ]

  pub migrated-no_canceled :
      (created delivered cancelled : Uuid)
      → status_named "CANCELED" (migrated_statuses created delivered cancelled) ≡ none
  unfolding status_named
  migrated-no_canceled created delivered cancelled = refl

  -- With the statuses of the migrations, CancelOrder never succeeds and changes nothing.
  pub cancel_order-migrated :
      (order_id : String) (w : World Tables) (created delivered cancelled : Uuid)
      → w.tables.statuses ≡ migrated_statuses created delivered cancelled
      → Fails (cancel_order pf order_id w) w.tables
  cancel_order-migrated order_id w created delivered cancelled m =
      cancel_order-Fails order_id w
        (ap (status_named "CANCELED") m ∙ migrated-no_canceled created delivered cancelled)
