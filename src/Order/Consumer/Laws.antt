-- ===== src/Order/Consumer/Laws.antt =====
-- The compensation of the saga: a stock failure cancels the order, once, whatever is redelivered.
use microservices.Prelude.{
  ◌≡◌, refl, ap, none, some, ◌==◌, ==_iff, Bool-cases, Option-cases, ◌⊎◌, inl, inr,
}
use microservices.Prelude.Rows.{find, update, any}
use microservices.Prelude.Rows.Laws.{any-find, find-update, find-update-some}
use microservices.Grpc.{Platform, Uuid}
use microservices.Effect.{World, ok, err, Error, failed, query}
use microservices.Effect.Laws.{query-cases}
use microservices.Events.{StockUpdateFailedEvent, Delivery, ack, nack_requeue}
use microservices.Order.{
  Order, Tables, has_id, with_status, get_order_by_id, update_order_status, is_status,
}
use microservices.Order.Consumer.{handle_stock_update_failed_event, check_order, cancel_order}

-- The tables in which the order has the status `cancelled`.
abbrev pub marked : Uuid → Uuid → Tables → Tables
marked cancelled order t = record t {
  orders = update (has_id order) (with_status cancelled) t.orders;
}

-- What a delivery for an order comes to.
pub data Handled (cancelled order : Uuid) (t : Tables) (r : Delivery × World Tables) : Type 0 where
  unknown_order :
      find (has_id order) t.orders ≡ none → r.0 ≡ ack → r.1.tables ≡ t → Handled cancelled order t r
  already :
      (o : Order)
      → find (has_id order) t.orders ≡ some o
      → o.status ≡ cancelled
      → r.0 ≡ ack
      → r.1.tables ≡ t
      → Handled cancelled order t r
  retried : r.0 ≡ nack_requeue → r.1.tables ≡ t → Handled cancelled order t r
  done : r.0 ≡ ack → r.1.tables ≡ marked cancelled order t → Handled cancelled order t r

cancel_order-cases :
    (cancelled order : Uuid) (w : World Tables) (o : Order)
    → find (has_id order) w.tables.orders ≡ some o
    → ((w' : World Tables) × ((e : Error) × (cancel_order cancelled order w ≡ (err e, w')))
        × (w'.tables ≡ w.tables))
      ⊎ ((w' : World Tables) × ((o' : Order) × (cancel_order cancelled order w ≡ (ok o', w')))
          × (w'.tables ≡ marked cancelled order w.tables))
unfolding cancel_order update_order_status
cancel_order-cases cancelled order w o found =
    elim (query-cases (update_order_status order cancelled) w) [
      | inl (fs, e) ↦ inl (record { tables = w.tables; faults = fs }, (failed, e), refl)
      | inr (fs, e) ↦ elim (Bool-cases (any (is_status cancelled) w.tables.statuses)) [
        | inl b ↦ inr (
          record { tables = marked cancelled order w.tables; faults = fs },
          (
            with_status cancelled o,
            rw
                (
                  any-find (has_id order) w.tables.orders o found,
                  b,
                  find-update-some (has_id order) (with_status cancelled) w.tables.orders o
                      (λ y. refl) found,
                )
                at e,
          ),
          refl,
        )
        | inr b ↦ inl (
          record { tables = w.tables; faults = fs },
          (
            failed,
            rw (any-find (has_id order) w.tables.orders o found, b, update_order_status) at e,
          ),
          refl,
        )
      ]
    ]

check_order-Handled :
    (cancelled order : Uuid) (w : World Tables)
    → Handled cancelled order w.tables
        (check_order cancelled order (query (get_order_by_id order) w))
unfolding get_order_by_id
check_order-Handled cancelled order w = elim (query-cases (get_order_by_id order) w) [
  | inl (fs, e) ↦ rw e (retried refl refl)
  | inr (fs, e) ↦ elim (Option-cases (find (has_id order) w.tables.orders)) [
    | inl n ↦ rw (e, n) (unknown_order n refl refl)
    | inr (o, n) ↦ elim (Bool-cases (o.status == cancelled)) [
      | inl s ↦ rw (e, n, s) (already o n ((==_iff o.status cancelled).0 s) refl refl)
      | inr s ↦
          let start : World Tables = record { tables = w.tables; faults = fs } in
          elim (cancel_order-cases cancelled order start o n) [
            | inl (w', (x, c), same) ↦ rw (e, n, s, c) (retried refl same)
            | inr (w', (x, c), same) ↦ rw (e, n, s, c) (done refl same)
          ]
    ]
  ]
]

-- The first order row with the id, if there is one, is cancelled.
abbrev pub IsCancelled : Uuid → Uuid → Tables → Type 0
IsCancelled cancelled order t =
    (o : Order) → find (has_id order) t.orders ≡ some o → o.status ≡ cancelled

-- An order that is in the first tables is found with the status `cancelled` in the second.
abbrev pub FoundCancelled : Uuid → Uuid → Tables → Tables → Type 0
FoundCancelled cancelled order t t' =
    (find (has_id order) t.orders ≡ none)
    ⊎ ((o : Order) × (find (has_id order) t'.orders ≡ some o) × (o.status ≡ cancelled))

marked-IsCancelled :
    (cancelled order : Uuid) (t : Tables) → IsCancelled cancelled order (marked cancelled order t)
marked-IsCancelled cancelled order t o h =
    let (x, found, same) =
      find-update (has_id order) (with_status cancelled) t.orders o (λ y. refl) h in
    ap (λ y. y.status) same

Handled-ack :
    (cancelled order : Uuid) (t : Tables) (r : Delivery × World Tables)
    → r.0 ≡ ack
    → Handled cancelled order t r
    → IsCancelled cancelled order r.1.tables
Handled-ack cancelled order t r h (unknown_order n a same) = rw same (λ o found. cc (n, found))
Handled-ack cancelled order t r h (already x n s a same) =
    rw same (λ o found. let e : o ≡ x = cc (n, found) in rw e s)
Handled-ack cancelled order t r h (retried a same) = cc (a, h)
Handled-ack cancelled order t r h (done a same) = rw same (marked-IsCancelled cancelled order t)

Handled-Found :
    (cancelled order : Uuid) (t : Tables) (r : Delivery × World Tables)
    → r.0 ≡ ack
    → Handled cancelled order t r
    → FoundCancelled cancelled order t r.1.tables
Handled-Found cancelled order t r h (unknown_order n a same) = inl n
Handled-Found cancelled order t r h (already x n s a same) = inr (x, rw same n, s)
Handled-Found cancelled order t r h (retried a same) = cc (a, h)
Handled-Found cancelled order t r h (done a same) =
    elim (Option-cases (find (has_id order) t.orders)) [
      | inl n ↦ inl n
      | inr (x, n) ↦ inr (
        with_status cancelled x,
        rw same (find-update-some (has_id order) (with_status cancelled) t.orders x (λ y. refl) n),
        refl,
      )
    ]

Handled-outbox :
    (cancelled order : Uuid) (t : Tables) (r : Delivery × World Tables)
    → Handled cancelled order t r
    → ((r.0 ≡ ack) ⊎ ((r.0 ≡ nack_requeue) × (r.1.tables ≡ t))) × (r.1.tables.outbox ≡ t.outbox)
Handled-outbox cancelled order t r (unknown_order n a same) = (inl a, ap (λ x. x.outbox) same)
Handled-outbox cancelled order t r (already x n s a same) = (inl a, ap (λ x. x.outbox) same)
Handled-outbox cancelled order t r (retried a same) = (inr (a, same), ap (λ x. x.outbox) same)
Handled-outbox cancelled order t r (done a same) = (inl a, ap (λ x. x.outbox) same)

module _ (pf : Platform) where
  handle-Handled :
      (cancelled : Uuid) (event : StockUpdateFailedEvent) (order : Uuid) (w : World Tables)
      → pf.scan_uuid event.order_id ≡ some order
      → Handled cancelled order w.tables
          (handle_stock_update_failed_event pf cancelled (some event) w)
  unfolding handle_stock_update_failed_event
  handle-Handled cancelled event order w p = rw p (check_order-Handled cancelled order w)

  -- A stock failure that is acknowledged has cancelled its order, if the order exists; otherwise
  -- the message is requeued and no table has changed. The outbox is never touched. The order id of
  -- the message parses.
  pub handle_stock_update_failed_event-ack :
      (cancelled : Uuid) (event : StockUpdateFailedEvent) (order : Uuid) (w : World Tables)
      → pf.scan_uuid event.order_id ≡ some order
      → (((handle_stock_update_failed_event pf cancelled (some event) w).0 ≡ ack)
            × IsCancelled cancelled order
                (handle_stock_update_failed_event pf cancelled (some event) w).1.tables
          ⊎ ((handle_stock_update_failed_event pf cancelled (some event) w).0 ≡ nack_requeue)
            × ((handle_stock_update_failed_event pf cancelled (some event) w).1.tables ≡ w.tables))
        × ((handle_stock_update_failed_event pf cancelled (some event) w).1.tables.outbox
            ≡ w.tables.outbox)
  handle_stock_update_failed_event-ack cancelled event order w p =
      let r = handle_stock_update_failed_event pf cancelled (some event) w in
      let h = handle-Handled cancelled event order w p in
      let (outcome, outbox) = Handled-outbox cancelled order w.tables r h in
      (
        elim outcome [
          | inl a ↦ inl (a, Handled-ack cancelled order w.tables r a h)
          | inr same ↦ inr same
        ],
        outbox,
      )

  check_order_cancelled :
      (cancelled order : Uuid) (w : World Tables)
      → IsCancelled cancelled order w.tables
      → (check_order cancelled order (query (get_order_by_id order) w)).1.tables ≡ w.tables
  unfolding get_order_by_id
  check_order_cancelled cancelled order w c = elim (query-cases (get_order_by_id order) w) [
    | inl (fs, e) ↦ rw e refl
    | inr (fs, e) ↦ elim (Option-cases (find (has_id order) w.tables.orders)) [
      | inl n ↦ rw (e, n) refl
      | inr (o, n) ↦ rw (e, n, (==_iff o.status cancelled).1 (c o n)) refl
    ]
  ]

  -- Messages are delivered at least once: once a delivery was acknowledged, its order, if there was
  -- one, is found cancelled at every further delivery, which changes no table, whatever fails, if
  -- no table has changed in between. The order id of the messages parses.
  pub handle_stock_update_failed_event_again :
      (cancelled : Uuid) (event event' : StockUpdateFailedEvent) (order : Uuid)
      (w w' : World Tables)
      → pf.scan_uuid event.order_id ≡ some order
      → pf.scan_uuid event'.order_id ≡ some order
      → (handle_stock_update_failed_event pf cancelled (some event) w).0 ≡ ack
      → w'.tables ≡ (handle_stock_update_failed_event pf cancelled (some event) w).1.tables
      → FoundCancelled cancelled order w.tables w'.tables
        × ((handle_stock_update_failed_event pf cancelled (some event') w').1.tables ≡ w'.tables)
  unfolding handle_stock_update_failed_event
  handle_stock_update_failed_event_again cancelled event event' order w w' p q a same =
      let r = handle_stock_update_failed_event pf cancelled (some event) w in
      let h = handle-Handled cancelled event order w p in
      (
        rw same (Handled-Found cancelled order w.tables r a h),
        rw q (
            check_order_cancelled cancelled order w'
              (rw same (Handled-ack cancelled order w.tables r a h))),
      )
