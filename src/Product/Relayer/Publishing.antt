-- ===== src/Product/Relayer/Publishing.antt =====
-- product-service/internal/events/publisher.go: over which connection a message is written.
use microservices.Prelude.Lists.{append_assoc, append_none}
use microservices.Prelude.{
  ◌≡◌, refl, ap, sym, ◌∙◌, inl, inr, String, Option, none, some, List, [], ◌∷◌, ◌++◌, Option-cases,
}
use microservices.Effect.{Result, ok}
use microservices.Rabbit.{
  Network, Manager, Op, Command, declare_exchange, publish_message, and_then, call,
  retry_with_reconnect,
}
use microservices.Rabbit.Client.{
  publish_once, publish as rabbit_publish, attempt_fanout_publish, fanout_publish, split_colon,
  DelegatingPublisher, delegating_publish, exchange_topic, exchange_fanout,
}
use microservices.Rabbit.Publishing.{call-ok}
use microservices.Rabbit.Sending.{
  Sends, call-Sends, and_then-Sends, retry_from-Sends, retry_from-ends, and_then-ends,
}

-- The exchange and the routing key of a name.
abbrev pub route : String → String × String
route name = elim (split_colon name) [ none ↦ (name, "") | some parts ↦ parts ]

-- The connection over which an event with the name is published.
abbrev pub chosen : Option (String × String) → DelegatingPublisher → Manager
chosen none p = p.fanout_publisher
chosen (some parts) p = p.client

abbrev pub manager_for : String → DelegatingPublisher → Manager
manager_for name p = chosen (split_colon name) p

abbrev Anything : Command → Type 0
Anything c = Unit {0}

-- The last command that was written is the given one.
pub record LastIs (c : Command) (m : Manager) : Type 0 where
  pub before : List Command
  pub last : m.outgoing ≡ before ++ c ∷ []

-- Commands were only added.
pub record Grows (m v : Manager) : Type 0 where
  pub more : List Command
  pub listed : v.outgoing ≡ m.outgoing ++ more

Grows-refl : (m : Manager) → Grows m m
Grows-refl m = record { more = []; listed = sym (append_none m.outgoing) }

module _ (net : Network) where
  two_calls : Command → Command → Op
  two_calls c d m = and_then (call net c m) (call net d)

  two_calls-LastIs :
      (c d : Command) (m : Manager) → (two_calls c d m).0 ≡ ok tt → LastIs d (two_calls c d m).1
  unfolding two_calls
  two_calls-LastIs c d m h =
      and_then-ends (LastIs d) (call net c m) (call net d)
        (λ v k. record {
          before = v.outgoing;
          last =
              call-ok net
                (record { exchange = ""; exchange_type = ""; routing_key = ""; body = "" }) d v k;
        })
        h

  two_calls-Sends : (c d : Command) (m : Manager) → Sends Anything 2 0 m (two_calls c d m).1
  unfolding two_calls
  two_calls-Sends c d m =
      and_then-Sends Anything 1 1 0 0 m (call net c m) _ (call-Sends Anything net c m tt)
        (call-Sends Anything net d _ tt)

  -- A retried pair of calls only adds commands, and ends with the second where it succeeds.
  retried : Command → Command → Op
  retried c d m = retry_with_reconnect net "publish" (two_calls c d) m

  retried-Grows : (c d : Command) (m : Manager) → Grows m (retried c d m).1
  unfolding retried retry_with_reconnect
  retried-Grows c d m =
      let a =
        retry_from-Sends Anything net "publish" (two_calls c d) 2 1 m refl (two_calls-Sends c d) in
      record { more = a.sent; listed = a.listed }

  retried-LastIs :
      (c d : Command) (m : Manager) → (retried c d m).0 ≡ ok tt → LastIs d (retried c d m).1
  unfolding retried retry_with_reconnect
  retried-LastIs c d m =
      retry_from-ends (LastIs d) net "publish" (two_calls c d) 3 1 m (two_calls-LastIs c d)

-- A publication only adds commands to both connections, and ends with its message on the one for its
-- name where it succeeds.
pub record Published (parts : Option (String × String)) (c : Command) (p : DelegatingPublisher)
    (r : Result String (Unit {0}) × DelegatingPublisher) : Type 0 where
  pub fanout : Grows p.fanout_publisher r.1.fanout_publisher
  pub client : Grows p.client r.1.client
  pub ends : r.0 ≡ ok tt → LastIs c (chosen parts r.1)

pub delegating_publish-Published :
    (fanout_net client_net : Network) (name body : String) (p : DelegatingPublisher)
    → Published
        (split_colon name)
        (publish_message (route name).0 (route name).1 body)
        p
        (delegating_publish fanout_net client_net name body p)
unfolding delegating_publish rabbit_publish publish_once fanout_publish attempt_fanout_publish
    two_calls retried
delegating_publish-Published fanout_net client_net name body p =
    elim (Option-cases (split_colon name)) [
      | inl n ↦
          let c = declare_exchange name exchange_fanout in
          let d = publish_message name "" body in
          rw (route, n)
            (record {
              fanout = retried-Grows fanout_net c d p.fanout_publisher;
              client = Grows-refl p.client;
              ends = retried-LastIs fanout_net c d p.fanout_publisher;
            })
      | inr ((exchange, key), n) ↦
          let c = declare_exchange exchange exchange_topic in
          let d = publish_message exchange key body in
          rw (route, n)
            (record {
              fanout = Grows-refl p.fanout_publisher;
              client = retried-Grows client_net c d p.client;
              ends = retried-LastIs client_net c d p.client;
            })
    ]

-- The command is one of those that were written to a connection.
pub record InOutgoing (c : Command) (m : Manager) : Type 0 where
  pub before : List Command
  pub after : List Command
  pub at : m.outgoing ≡ before ++ c ∷ after

pub InOutgoing-Grows : (c : Command) (m v : Manager) → InOutgoing c m → Grows m v → InOutgoing c v
InOutgoing-Grows c m v h a = record {
  before = h.before;
  after = h.after ++ a.more;
  at = a.listed ∙ ap (λ l. l ++ a.more) h.at ∙ append_assoc h.before (c ∷ h.after) a.more;
}

-- Both connections of a publisher only got more commands.
abbrev pub Extends : DelegatingPublisher → DelegatingPublisher → Type 0
Extends p q = Grows p.fanout_publisher q.fanout_publisher × Grows p.client q.client

pub manager_for-Grows :
    (name : String) (p q : DelegatingPublisher)
    → Extends p q
    → Grows (manager_for name p) (manager_for name q)
manager_for-Grows name p q (a, b) = elim (Option-cases (split_colon name)) [
  | inl n ↦ rw n a
  | inr (parts, n) ↦ rw n b
]
