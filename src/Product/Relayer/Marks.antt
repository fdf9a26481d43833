-- ===== src/Product/Relayer/Marks.antt =====
-- An event of the product service is marked as published only after its message was written.
use microservices.Prelude.{ℕ, ◌≡◌, refl, ◌⊎◌, inl, inr, String, some, List, [], ◌∷◌, map, leb}
use microservices.Prelude.Rows.{update, select, take}
use microservices.Product.Queries.{sort_rows}
use microservices.Grpc.{Platform, Uuid}
use microservices.Effect.{Result, ok, err, World}
use microservices.Effect.Laws.{query-cases}
use microservices.Product.{OutboxEvent, EventBody, is_event}
use microservices.Relay.{after_publish, relay_event, relay_events, process_events}
use microservices.Rabbit.{Network, Command, publish_message}
use microservices.Rabbit.Client.{split_colon, DelegatingPublisher, delegating_publish}
use microservices.Product.Relayer.{
  System, stamped, is_unpublished, update_outbox_event_status, get_unpublished_outbox_events,
  on_tables, as_error, publish, to_event, get_unpublished, update_status, repository, poll,
}
use microservices.Product.Relayer.Publishing.{
  route, manager_for, Published, delegating_publish-Published, InOutgoing, InOutgoing-Grows,
  Extends, manager_for-Grows,
}

abbrev pub In : OutboxEvent → List OutboxEvent → Type 0
In x [] = ⊥
In x (y ∷ ys) = (x ≡ y) ⊎ In x ys

module _ (encode : EventBody → String) where
  -- The message of a row: its exchange, its routing key and its body.
  abbrev pub message : OutboxEvent → Command
  message row =
      publish_message (route row.event_name).0 (route row.event_name).1 (encode row.payload)

  -- The id is that of one of the rows, whose message was written to the connection for its
  -- name.
  pub record IsSent (rows : List OutboxEvent) (p : DelegatingPublisher) (u : Uuid) : Type 0 where
    pub row : OutboxEvent
    pub one_of : In row rows
    pub names : row.id ≡ u
    pub written : InOutgoing (message row) (manager_for row.event_name p)

  -- The rows of the outbox after some ids have been marked as published, each of which was sent.
  pub data Marks (rows : List OutboxEvent) (p : DelegatingPublisher) (es : List OutboxEvent)
      : List OutboxEvent → Type 0 where
    unmarked : Marks rows p es es
    marks :
        (u : Uuid) (now : ℕ) (fs : List OutboxEvent)
        → Marks rows p es fs
        → IsSent rows p u
        → Marks rows p es (update (is_event u) (stamped now) fs)

  Marks-Extends :
      (rows : List OutboxEvent) (p q : DelegatingPublisher) (es fs : List OutboxEvent)
      → Extends p q
      → Marks rows p es fs
      → Marks rows q es fs
  Marks-Extends rows p q es fs a unmarked = unmarked
  Marks-Extends rows p q es fs a (marks u now gs k h) =
      marks u now gs (Marks-Extends rows p q es gs a k) (record {
        row = h.row;
        one_of = h.one_of;
        names = h.names;
        written =
            InOutgoing-Grows (message h.row) (manager_for h.row.event_name p)
              (manager_for h.row.event_name q) h.written (manager_for-Grows h.row.event_name p q a);
      })

  module _ (pf : Platform) (fanout_net client_net : Network)
      (reads_back : (u : Uuid) → pf.scan_uuid (pf.uuid_string u) ≡ some u) where
    update_status-Marks :
        (rows : List OutboxEvent) (row : OutboxEvent) (es : List OutboxEvent) (w : World System)
        → In row rows
        → InOutgoing (message row) (manager_for row.event_name w.tables.publisher)
        → Marks rows w.tables.publisher es w.tables.tables.outbox
        → Marks rows
            (update_status pf fanout_net client_net encode
              (pf.uuid_string row.id)
              w).1.tables.publisher
            es
            (update_status pf fanout_net client_net encode
              (pf.uuid_string row.id)
              w).1.tables.tables.outbox
    unfolding update_status update_outbox_event_status
    update_status-Marks rows row es w i sent k =
        elim (query-cases (on_tables (update_outbox_event_status row.id)) w) [
          | inl (fs, e) ↦ rw (reads_back row.id, e) k
          | inr (fs, e) ↦
              rw (reads_back row.id, e)
                (marks row.id w.tables.tables.pg.now w.tables.tables.outbox k
                  (record { row = row; one_of = i; names = refl; written = sent }))
        ]

    after_publish-Marks :
        (rows : List OutboxEvent) (row : OutboxEvent) (es : List OutboxEvent) (w : World System)
        (r : Result String (Unit {0})) (q : DelegatingPublisher)
        → In row rows
        → Published (split_colon row.event_name) (message row) w.tables.publisher (r, q)
        → Marks rows w.tables.publisher es w.tables.tables.outbox
        → Marks rows
            (after_publish
              (repository pf fanout_net client_net encode)
              (publish pf fanout_net client_net encode)
              (to_event pf fanout_net client_net encode row)
              (
                as_error r,
                record w { tables = record w.tables { publisher = q } },
              )).tables.publisher
            es
            (after_publish
              (repository pf fanout_net client_net encode)
              (publish pf fanout_net client_net encode)
              (to_event pf fanout_net client_net encode row)
              (
                as_error r,
                record w { tables = record w.tables { publisher = q } },
              )).tables.tables.outbox
    after_publish-Marks rows row es w (err x) q i p k =
        Marks-Extends rows w.tables.publisher q es w.tables.tables.outbox (p.fanout, p.client) k
    after_publish-Marks rows row es w (ok u) q i p k =
        let it = p.ends refl in
        update_status-Marks rows row es (record w { tables = record w.tables { publisher = q } }) i
          (record { before = it.before; after = []; at = it.last })
          (Marks-Extends rows w.tables.publisher q es w.tables.tables.outbox (p.fanout, p.client) k)

    relay_events-Marks :
        (all rows es : List OutboxEvent) (w : World System)
        → ((row : OutboxEvent) → In row rows → In row all)
        → Marks all w.tables.publisher es w.tables.tables.outbox
        → Marks all
            (relay_events
              (repository pf fanout_net client_net encode)
              (publish pf fanout_net client_net encode)
              (map (to_event pf fanout_net client_net encode) rows)
              w).tables.publisher
            es
            (relay_events
              (repository pf fanout_net client_net encode)
              (publish pf fanout_net client_net encode)
              (map (to_event pf fanout_net client_net encode) rows)
              w).tables.tables.outbox
    unfolding relay_events relay_event publish
    relay_events-Marks all [] es w sub k = k
    relay_events-Marks all (row ∷ rows) es w sub k =
        let p =
          delegating_publish fanout_net client_net row.event_name (encode row.payload)
            w.tables.publisher in
        relay_events-Marks all rows es _ (λ r i. sub r (inr i))
          (after_publish-Marks all row es w p.0 p.1 (sub row (inl refl))
            (delegating_publish-Published fanout_net client_net row.event_name (encode row.payload)
              w.tables.publisher)
            k)

    -- A poll of the outbox of the product service, over its publisher and any networks of its two
    -- connections, changes the outbox only by marking ids as published, each the id of a row that
    -- was read as unpublished and whose message, with the exchange and the routing key of its name,
    -- was written to the connection that the name selects. The text of an id reads back as the id.
    pub poll-Marks :
        (batch_size : ℕ) (w : World System)
        → (rows : List OutboxEvent) × (((get_unpublished_outbox_events batch_size w.tables.tables).0
              ≡ ok rows)
            × Marks rows
                (poll pf fanout_net client_net encode batch_size w).1.tables.publisher
                w.tables.tables.outbox
                (poll pf fanout_net client_net encode batch_size w).1.tables.tables.outbox)
    unfolding poll process_events get_unpublished get_unpublished_outbox_events
    poll-Marks batch_size w =
        let rows : List OutboxEvent = take batch_size (
          sort_rows (λ a b. leb a.created_at b.created_at)
            (select is_unpublished w.tables.tables.outbox)) in
        elim (query-cases (on_tables (get_unpublished_outbox_events batch_size)) w) [
          | inl (fs, e) ↦ (rows, (refl, rw e unmarked))
          | inr (fs, e) ↦ (
            rows,
            (
              refl,
              rw e (
                  relay_events-Marks rows rows w.tables.tables.outbox
                    (record { tables = w.tables; faults = fs }) (λ r i. i) unmarked),
            ),
          )
        ]
