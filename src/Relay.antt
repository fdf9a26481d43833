-- ===== src/Relay.antt =====
-- shared/events/worker/outbox_event_message_relayer.go: one poll of the outbox, over the interfaces
-- OutboxEventRepository and Publisher. The ticker that repeats the poll is not modelled.
use microservices.Prelude.{ℕ, String, List, [], ◌∷◌}
use microservices.Effect.{Result, ok, err, Error, World, Action, ◌>>=◌, pure}

-- events.OutboxEvent; its field Status is not read by the worker. `P` is the type of payloads.
pub record Event (P : Type 0) : Type 0 where
  pub id : String
  pub aggregate_id : String
  pub event_name : String
  pub payload : P

pub record OutboxEventRepository (D P : Type 0) : Type 0 where
  pub get_unpublished_outbox_events : ℕ → Action D Error (List (Event P))
  pub update_outbox_event_status : String → Action D Error (Unit {0})

abbrev pub Publisher : Type 0 → Type 0 → Type 0
Publisher D P = String → P → Action D Error (Unit {0})

module _ {D P : Type 0} (repo : OutboxEventRepository D P) (publish : Publisher D P) where
  -- A failed publish leaves the event for a later poll; a failed update is only logged.
  abbrev pub after_publish : Event P → Result Error (Unit {0}) × World D → World D
  after_publish event (err e, w) = w
  after_publish event (ok u, w) = (repo.update_outbox_event_status event.id w).1

  unfoldable pub relay_event : Event P → World D → World D
  relay_event event w = after_publish event (publish event.event_name event.payload w)

  unfoldable pub relay_events : List (Event P) → World D → World D
  relay_events [] w = w
  relay_events (event ∷ events) w = relay_events events (relay_event event w)

  abbrev pub relay_batch : List (Event P) → Action D Error (Unit {0})
  relay_batch events w = pure tt (relay_events events w)

  unfoldable pub process_events : ℕ → Action D Error (Unit {0})
  process_events batch_size = do
    events ← repo.get_unpublished_outbox_events batch_size
    relay_batch events
