-- ===== src/Order/Relayer/Sequence.antt =====
-- What one poll sends while nothing fails, and in which order.
use microservices.Prelude.{
  ℕ, zero, suc, ◌≤◌, String, ◌≡◌, refl, ap, sym, ◌∙◌, true, false, List, [], ◌∷◌, ◌++◌, map, leb,
  arith, Bool-cases, Option-cases, inl, inr,
}
use mathlib.Core.List.{append-nil, append_assoc}
use microservices.Prelude.Rows.{length, take, select}
use microservices.Grpc.{Platform}
use microservices.Effect.{World, query}
use microservices.Events.{OrderCreatedEvent}
use microservices.Order.{
  Tables, OutboxEvent, published, is_unpublished, sort_by_time, insert_by_time,
  get_unpublished_outbox_events, update_outbox_event_status,
}
use microservices.Relay.{Event, relay_event, relay_events, process_events}
use microservices.Order.Relayer.{
  System, publish, to_event, get_unpublished, update_status, repository, poll,
}
use microservices.Order.Relayer.Rows.{message, event_message, batch}

-- No row is older than the time `n`.
abbrev pub Below : ℕ → List OutboxEvent → Type 0
Below n [] = Unit
Below n (e ∷ es) = (n ≤ e.created_at) × Below n es

-- Each row is at most as young as the rows behind it.
abbrev pub IsSorted : List OutboxEvent → Type 0
IsSorted [] = Unit
IsSorted (e ∷ es) = Below e.created_at es × IsSorted es

Below-le : (m n : ℕ) (es : List OutboxEvent) → m ≤ n → Below n es → Below m es
Below-le m n [] h b = tt
Below-le m n (e ∷ es) h (k, b) = (omega arith, Below-le m n es h b)

Below-insert :
    (n : ℕ) (e : OutboxEvent) (es : List OutboxEvent)
    → n ≤ e.created_at
    → Below n es
    → Below n (insert_by_time e es)
unfolding insert_by_time
Below-insert n e [] h b = (h, tt)
Below-insert n e (x ∷ xs) h (k, b) = elim (Bool-cases (leb e.created_at x.created_at)) [
  | inl l ↦ rw l (h, (k, b))
  | inr l ↦ rw l (k, Below-insert n e xs h b)
]

le_of_leb : (a b : ℕ) → leb a b ≡ true → a ≤ b
le_of_leb a b h = ground arith

le_of_leb-false : (a b : ℕ) → leb a b ≡ false → b ≤ a
le_of_leb-false a b h = ground arith

IsSorted-insert :
    (e : OutboxEvent) (es : List OutboxEvent) → IsSorted es → IsSorted (insert_by_time e es)
unfolding insert_by_time
IsSorted-insert e [] h = (tt, tt)
IsSorted-insert e (x ∷ xs) (b, h) = elim (Bool-cases (leb e.created_at x.created_at)) [
  | inl l ↦
      let le = le_of_leb e.created_at x.created_at l in
      rw l ((le, Below-le e.created_at x.created_at xs le b), (b, h))
  | inr l ↦ rw l (
    Below-insert x.created_at e xs (le_of_leb-false e.created_at x.created_at l) b,
    IsSorted-insert e xs h,
  )
]

IsSorted-sort : (es : List OutboxEvent) → IsSorted (sort_by_time es)
unfolding sort_by_time
IsSorted-sort [] = tt
IsSorted-sort (e ∷ es) = IsSorted-insert e (sort_by_time es) (IsSorted-sort es)

Below-take : (n k : ℕ) (es : List OutboxEvent) → Below k es → Below k (take n es)
Below-take zero k es b = tt
Below-take (suc n) k [] b = tt
Below-take (suc n) k (e ∷ es) (h, b) = (h, Below-take n k es b)

IsSorted-take : (n : ℕ) (es : List OutboxEvent) → IsSorted es → IsSorted (take n es)
IsSorted-take zero es h = tt
IsSorted-take (suc n) [] h = tt
IsSorted-take (suc n) (e ∷ es) (b, h) = (Below-take n e.created_at es b, IsSorted-take n es h)

length-take : (n : ℕ) (es : List OutboxEvent) → length (take n es) ≤ n
length-take zero es = omega arith
length-take (suc n) [] = omega arith
length-take (suc n) (e ∷ es) = omega (arith, length-take n es)

module _ (pf : Platform) where
  abbrev calm : System → World System
  calm s = record { tables = s; faults = [] }

  update_status-calm :
      (id : String) (s : System)
      → (t : Tables) × ((update_status pf id (calm s)).1
          ≡ calm (record { tables = t; outgoing = s.outgoing }))
  unfolding query update_status update_outbox_event_status
  update_status-calm id s = elim (Option-cases (pf.scan_uuid id)) [
    | inl p ↦ (s.tables, rw p refl)
    | inr (u, p) ↦ ((update_outbox_event_status u published s.tables).1, rw p refl)
  ]

  relay_event-calm :
      (event : Event OrderCreatedEvent) (s : System)
      → (t : Tables) × (relay_event (repository pf) publish event (calm s)
          ≡ calm (record { tables = t; outgoing = s.outgoing ++ event_message event ∷ [] }))
  unfolding relay_event publish query
  relay_event-calm event s =
      update_status-calm event.id
        (record { tables = s.tables; outgoing = s.outgoing ++ event_message event ∷ [] })

  relay_events-outgoing :
      (events : List (Event OrderCreatedEvent)) (s : System)
      → (relay_events (repository pf) publish events (calm s)).tables.outgoing
        ≡ s.outgoing ++ map event_message events
  unfolding relay_events
  relay_events-outgoing [] s = sym (append-nil s.outgoing)
  relay_events-outgoing (event ∷ events) s =
      let (t, e) = relay_event-calm event s in
      let s' : System = record { tables = t; outgoing = s.outgoing ++ event_message event ∷ [] } in
      ap (λ w. (relay_events (repository pf) publish events w).tables.outgoing) e
      ∙ relay_events-outgoing events s'
      ∙ append_assoc s.outgoing (event_message event ∷ []) (map event_message events)

  map-to_event :
      (rows : List OutboxEvent) → map event_message (map (to_event pf) rows) ≡ map message rows
  map-to_event [] = refl
  map-to_event (row ∷ rows) = ap (λ ms. message row ∷ ms) (map-to_event rows)

  -- While nothing fails, a poll sends the messages of its batch, each once and in the order of
  -- their creation, and no more than the batch size.
  pub poll-outgoing :
      (batch_size : ℕ) (s : System)
      → ((poll pf batch_size (calm s)).1.tables.outgoing
          ≡ s.outgoing ++ map message (batch batch_size s.tables))
        × IsSorted (batch batch_size s.tables)
        × (length (batch batch_size s.tables) ≤ batch_size)
  unfolding poll process_events get_unpublished get_unpublished_outbox_events query
  poll-outgoing batch_size s = (
    relay_events-outgoing (map (to_event pf) (batch batch_size s.tables)) s
        ∙ ap (λ ms. s.outgoing ++ ms) (map-to_event (batch batch_size s.tables)),
    IsSorted-take batch_size (sort_by_time (select is_unpublished s.tables.outbox))
        (IsSorted-sort (select is_unpublished s.tables.outbox)),
    length-take batch_size (sort_by_time (select is_unpublished s.tables.outbox)),
  )
