-- ===== src/Order/Relayer/Delivery.antt =====
-- A row of the outbox is marked only after its message was handed over.
use microservices.Prelude.{
  ℕ, ◌≡◌, refl, ap, sym, ◌∙◌, Bool, some, List, [], ◌∷◌, ◌++◌, map, Option-cases, inl, inr,
}
use microservices.Prelude.Rows.{update}
use microservices.Grpc.{Platform, Uuid}
use microservices.Effect.{World}
use microservices.Effect.Laws.{query-cases}
use microservices.Events.{OrderCreatedEvent}
use microservices.Order.{
  OutboxEvent, published, is_event, stamped, get_unpublished_outbox_events,
  update_outbox_event_status,
}
use microservices.Relay.{Event, relay_event, relay_events, process_events}
use microservices.Order.Relayer.{
  System, publish, deliver, on_tables, to_event, get_unpublished, update_status, repository, poll,
}
use microservices.Order.Relayer.Rows.{
  message, event_message, AllRows, IsRelayed, Names, HandedOver-last, relayed-deliver,
  relayed-update, Names-update, In, HasUniqueIds, AllRows-In, batch, batch-In,
}

module _ (pf : Platform) where
  -- Each event of a batch stands for the rows of the id that its text spells.
  abbrev pub BatchNames : List (Event OrderCreatedEvent) → List OutboxEvent → Type 0
  BatchNames [] es = Unit
  BatchNames (event ∷ events) es =
      ((u : Uuid) → pf.scan_uuid event.id ≡ some u → Names u event es) × BatchNames events es

  BatchNames-update :
      (events : List (Event OrderCreatedEvent)) (u : Uuid) (now : ℕ) (es : List OutboxEvent)
      → BatchNames events es
      → BatchNames events (update (is_event u) (stamped published now) es)
  BatchNames-update [] u now es n = tt
  BatchNames-update (event ∷ events) u now es (n, ns) =
      (λ v p. Names-update v event u now es (n v p), BatchNames-update events u now es ns)

  BatchNames-rows :
      (rows es : List OutboxEvent)
      → ((u : Uuid) → pf.scan_uuid (pf.uuid_string u) ≡ some u)
      → HasUniqueIds es
      → AllRows (λ e. In e es) rows
      → BatchNames (map (to_event pf) rows) es
  BatchNames-rows [] es text unique h = tt
  BatchNames-rows (row ∷ rows) es text unique (i, h) = (
    λ u p.
        let same : row.id ≡ u = cc (p, text row.id) in
        AllRows-In (λ e. e.id ≡ u → message e ≡ message row) es
          (λ e j k. ap message (unique e row j i (k ∙ sym same))),
    BatchNames-rows rows es text unique h,
  )

  -- The system after the message of an event is handed over, and with the rows of an id marked.
  abbrev pub handed_over : Event OrderCreatedEvent → System → System
  handed_over event s = record s { outgoing = s.outgoing ++ event_message event ∷ [] }

  abbrev pub marked : Uuid → System → System
  marked u s = record s {
    tables = record s.tables {
      outbox = update (is_event u) (stamped published s.tables.pg.now) s.tables.outbox;
    };
  }

  -- What relaying one event comes to.
  data Step (event : Event OrderCreatedEvent) (s s' : System) : Type 0 where
    not_sent : s' ≡ s → Step event s s'
    not_marked : s' ≡ handed_over event s → Step event s s'
    sent :
        (u : Uuid)
        → pf.scan_uuid event.id ≡ some u
        → s' ≡ marked u (handed_over event s)
        → Step event s s'

  update_status-cases :
      (event : Event OrderCreatedEvent) (s : System) (fs : List Bool)
      → Step event s
          (update_status pf event.id
            (record { tables = handed_over event s; faults = fs })).1.tables
  unfolding update_status update_outbox_event_status
  update_status-cases event s fs = elim (Option-cases (pf.scan_uuid event.id)) [
    | inl p ↦ not_marked (rw p refl)
    | inr (u, p) ↦
        elim (query-cases (on_tables (update_outbox_event_status u published))
          (record { tables = handed_over event s; faults = fs })) [
            | inl (gs, e) ↦ not_marked (rw (p, e) refl)
            | inr (gs, e) ↦ sent u p (rw (p, e) refl)
          ]
  ]

  relay_event-Step :
      (event : Event OrderCreatedEvent) (w : World System)
      → Step event w.tables (relay_event (repository pf) publish event w).tables
  unfolding relay_event publish
  relay_event-Step event w = elim (query-cases (deliver event.event_name event.payload) w) [
    | inl (fs, e) ↦ rw e (not_sent refl)
    | inr (fs, e) ↦ rw e (update_status-cases event w.tables fs)
  ]

  Step-IsRelayed :
      (event : Event OrderCreatedEvent) (s s' : System)
      → BatchNames (event ∷ []) s.tables.outbox
      → IsRelayed s
      → Step event s s'
      → IsRelayed s'
  Step-IsRelayed event s s' n r (not_sent e) = rw e r
  Step-IsRelayed event s s' n r (not_marked e) =
      rw e (relayed-deliver s.tables.outbox s.outgoing (event_message event ∷ []) r)
  Step-IsRelayed event s s' (n, _) r (sent u p e) = rw e (
      relayed-update u event s.tables.pg.now s.tables.outbox
        (s.outgoing ++ event_message event ∷ []) (HandedOver-last (event_message event) s.outgoing)
        (n u p) (relayed-deliver s.tables.outbox s.outgoing (event_message event ∷ []) r))

  Step-BatchNames :
      (event : Event OrderCreatedEvent) (events : List (Event OrderCreatedEvent)) (s s' : System)
      → BatchNames events s.tables.outbox
      → Step event s s'
      → BatchNames events s'.tables.outbox
  Step-BatchNames event events s s' n (not_sent e) = rw e n
  Step-BatchNames event events s s' n (not_marked e) = rw e n
  Step-BatchNames event events s s' n (sent u p e) =
      rw e (BatchNames-update events u s.tables.pg.now s.tables.outbox n)

  relay_events-IsRelayed :
      (events : List (Event OrderCreatedEvent)) (w : World System)
      → BatchNames events w.tables.tables.outbox
      → IsRelayed w.tables
      → IsRelayed (relay_events (repository pf) publish events w).tables
  unfolding relay_events
  relay_events-IsRelayed [] w n r = r
  relay_events-IsRelayed (event ∷ events) w (n, ns) r =
      let w' = relay_event (repository pf) publish event w in
      let st = relay_event-Step event w in
      relay_events-IsRelayed events w' (Step-BatchNames event events w.tables w'.tables ns st)
        (Step-IsRelayed event w.tables w'.tables (n, tt) r st)

  -- A poll keeps the promise of the outbox: a row is marked PUBLISHED only after Publish returned
  -- without an error for its message, whatever fails. Ids are unique, and the text of a UUID reads
  -- back.
  pub poll-IsRelayed :
      (batch_size : ℕ) (w : World System)
      → ((u : Uuid) → pf.scan_uuid (pf.uuid_string u) ≡ some u)
      → HasUniqueIds w.tables.tables.outbox
      → IsRelayed w.tables
      → IsRelayed (poll pf batch_size w).1.tables
  unfolding poll process_events get_unpublished get_unpublished_outbox_events
  poll-IsRelayed batch_size w text unique r =
      elim (query-cases (on_tables (get_unpublished_outbox_events batch_size)) w) [
        | inl (fs, e) ↦ rw e r
        | inr (fs, e) ↦ rw e (
            relay_events-IsRelayed (map (to_event pf) (batch batch_size w.tables.tables))
              (record { tables = w.tables; faults = fs })
              (BatchNames-rows (batch batch_size w.tables.tables) w.tables.tables.outbox text unique
                (batch-In batch_size w.tables.tables))
              r)
      ]
