-- ===== src/Order/Relayer/Rows.antt =====
-- Predicates on the rows of the outbox and on the messages that were handed over.
use microservices.Prelude.{
  ℕ, zero, suc, ◌≡◌, refl, Bool, List, [], ◌∷◌, ◌++◌, leb, ◌==◌, ==_iff, Bool-cases, ◌⊎◌, inl, inr,
}
use microservices.Prelude.Rows.{update, take, select}
use microservices.Grpc.{Uuid}
use microservices.Events.{OrderCreatedEvent}
use microservices.Order.{
  Tables, OutboxEvent, published, is_event, stamped, is_unpublished, sort_by_time, insert_by_time,
}
use microservices.Relay.{Event}
use microservices.Order.Relayer.{Message, System}

-- The message of a row.
abbrev pub message : OutboxEvent → Message
message e = (e.event_name, e.payload)

abbrev pub event_message : Event OrderCreatedEvent → Message
event_message e = (e.event_name, e.payload)

abbrev pub HandedOver : Message → List Message → Type 0
HandedOver m [] = ⊥
HandedOver m (x ∷ xs) = (m ≡ x) ⊎ HandedOver m xs

abbrev pub AllRows : (OutboxEvent → Type 0) → List OutboxEvent → Type 0
AllRows P [] = Unit
AllRows P (e ∷ es) = P e × AllRows P es

-- The invariant of the outbox: the message of a row that is marked PUBLISHED was handed over.
abbrev pub IsRelayed : System → Type 0
IsRelayed s =
    AllRows (λ e. e.status ≡ published → HandedOver (message e) s.outgoing) s.tables.outbox

-- The event stands for every row of its id.
abbrev pub Names : Uuid → Event OrderCreatedEvent → List OutboxEvent → Type 0
Names u event = AllRows (λ e. e.id ≡ u → message e ≡ event_message event)

pub HandedOver-append :
    (m : Message) (xs ys : List Message) → HandedOver m xs → HandedOver m (xs ++ ys)
HandedOver-append m [] ys h = elim h [ ]
HandedOver-append m (x ∷ xs) ys (inl e) = inl e
HandedOver-append m (x ∷ xs) ys (inr h) = inr (HandedOver-append m xs ys h)

pub HandedOver-last : (m : Message) (xs : List Message) → HandedOver m (xs ++ m ∷ [])
HandedOver-last m [] = inl refl
HandedOver-last m (x ∷ xs) = inr (HandedOver-last m xs)

-- One more message that is handed over.
pub relayed-deliver :
    (es : List OutboxEvent) (outgoing more : List Message)
    → AllRows (λ e. e.status ≡ published → HandedOver (message e) outgoing) es
    → AllRows (λ e. e.status ≡ published → HandedOver (message e) (outgoing ++ more)) es
relayed-deliver [] outgoing more h = tt
relayed-deliver (e ∷ es) outgoing more (p, h) =
    (λ s. HandedOver-append (message e) outgoing more (p s), relayed-deliver es outgoing more h)

-- The rows of an id are marked when their message was handed over.
pub relayed-update :
    (u : Uuid) (event : Event OrderCreatedEvent) (now : ℕ) (es : List OutboxEvent)
    (outgoing : List Message)
    → HandedOver (event_message event) outgoing
    → Names u event es
    → AllRows (λ e. e.status ≡ published → HandedOver (message e) outgoing) es
    → AllRows
        (λ e. e.status ≡ published → HandedOver (message e) outgoing)
        (update (is_event u) (stamped published now) es)
relayed-update u event now [] outgoing a n h = tt
relayed-update u event now (e ∷ es) outgoing a (n, ns) (p, h) = elim (Bool-cases (e.id == u)) [
  | inl b ↦
      rw b ((λ s. rw (n ((==_iff e.id u).0 b)) a), relayed-update u event now es outgoing a ns h)
  | inr b ↦ rw b (p, relayed-update u event now es outgoing a ns h)
]

pub Names-update :
    (v : Uuid) (event : Event OrderCreatedEvent) (u : Uuid) (now : ℕ) (es : List OutboxEvent)
    → Names v event es
    → Names v event (update (is_event u) (stamped published now) es)
Names-update v event u now [] n = tt
Names-update v event u now (e ∷ es) (n, ns) = elim (Bool-cases (e.id == u)) [
  | inl b ↦ rw b (n, Names-update v event u now es ns)
  | inr b ↦ rw b (n, Names-update v event u now es ns)
]

-- Rows of the table, and the primary key.
abbrev pub In : OutboxEvent → List OutboxEvent → Type 0
In e [] = ⊥
In e (x ∷ xs) = (e ≡ x) ⊎ In e xs

abbrev pub HasUniqueIds : List OutboxEvent → Type 0
HasUniqueIds es = (x y : OutboxEvent) → In x es → In y es → x.id ≡ y.id → x ≡ y

pub AllRows-In :
    (P : OutboxEvent → Type 0) (es : List OutboxEvent)
    → ((e : OutboxEvent) → In e es → P e)
    → AllRows P es
AllRows-In P [] h = tt
AllRows-In P (e ∷ es) h = (h e (inl refl), AllRows-In P es (λ x i. h x (inr i)))

module _ (P : OutboxEvent → Type 0) where
  AllRows-select :
      (p : OutboxEvent → Bool) (es : List OutboxEvent) → AllRows P es → AllRows P (select p es)
  AllRows-select p [] h = tt
  AllRows-select p (e ∷ es) (q, h) = elim (Bool-cases (p e)) [
    | inl b ↦ rw b (q, AllRows-select p es h)
    | inr b ↦ rw b (AllRows-select p es h)
  ]

  AllRows-insert :
      (e : OutboxEvent) (es : List OutboxEvent)
      → P e
      → AllRows P es
      → AllRows P (insert_by_time e es)
  unfolding insert_by_time
  AllRows-insert e [] q h = (q, tt)
  AllRows-insert e (x ∷ xs) q (p, h) = elim (Bool-cases (leb e.created_at x.created_at)) [
    | inl b ↦ rw b (q, (p, h))
    | inr b ↦ rw b (p, AllRows-insert e xs q h)
  ]

  AllRows-sort : (es : List OutboxEvent) → AllRows P es → AllRows P (sort_by_time es)
  unfolding sort_by_time
  AllRows-sort [] h = tt
  AllRows-sort (e ∷ es) (q, h) = AllRows-insert e (sort_by_time es) q (AllRows-sort es h)

  AllRows-take : (n : ℕ) (es : List OutboxEvent) → AllRows P es → AllRows P (take n es)
  AllRows-take zero es h = tt
  AllRows-take (suc n) [] h = tt
  AllRows-take (suc n) (e ∷ es) (q, h) = (q, AllRows-take n es h)

-- The rows of one poll.
abbrev pub batch : ℕ → Tables → List OutboxEvent
batch limit t = take limit (sort_by_time (select is_unpublished t.outbox))

In-refl : (es : List OutboxEvent) → AllRows (λ e. In e es) es
In-refl es = AllRows-In (λ e. In e es) es (λ e i. i)

pub batch-In : (limit : ℕ) (t : Tables) → AllRows (λ e. In e t.outbox) (batch limit t)
batch-In limit t =
    let P = λ (e : OutboxEvent). In e t.outbox in
    AllRows-take P limit (sort_by_time (select is_unpublished t.outbox)) (
      AllRows-sort P (select is_unpublished t.outbox)
        (AllRows-select P is_unpublished t.outbox (In-refl t.outbox)))
