-- ===== src/Rabbit/Client.antt =====
-- shared/rabbitmq/client.go and fannout_exchange.go: publishing and subscribing, and the publisher of
-- product-service/internal/events/publisher.go, which chooses between them.
use microservices.Prelude.{
  ◌+◌, String, true, false, Option, none, some, text_append, slice, len, find?,
}
use microservices.Effect.{Result, ok, err}
use microservices.Rabbit.{
  Network, Manager, Op, Command, set_qos, declare_exchange, declare_queue,
  declare_dead_letter_queue, bind_queue, publish_message, and_then, call, retry_with_reconnect,
  reconnect, is_connection_error,
}

-- PublishOptions with the type topic, without the context.
pub record PublishOptions : Type 0 where
  pub exchange : String
  pub exchange_type : String
  pub routing_key : String
  pub body : String

pub record SubscribeOptions : Type 0 where
  pub exchange : String
  pub exchange_type : String
  pub queue_name : String
  pub binding_key : String

abbrev pub exchange_topic : String
exchange_topic = "topic"

abbrev pub exchange_fanout : String
exchange_fanout = "fanout"

-- An error that fmt.Errorf puts a text in front of.
abbrev pub wrapped :
    String → Result String (Unit {0}) × Manager → Result String (Unit {0}) × Manager
wrapped text (ok u, m) = (ok u, m)
wrapped text (err e, m) = (err (text_append text e), m)

-- strings.SplitN(event_name, ":", 2): the texts around the first colon.
abbrev pub split_colon : String → Option (String × String)
split_colon name = elim (find? name ":") [
  | none ↦ none
  | some i ↦ some (slice name 0 i, slice name (i + 1) (len name))
]

-- DelegatingPublisher: a publisher for fanouts and a client for topics, each with its connection.
pub record DelegatingPublisher : Type 0 where
  pub fanout_publisher : Manager
  pub client : Manager

module _ (net : Network) where
  -- The function that Publish retries.
  unfoldable pub publish_once : PublishOptions → Op
  publish_once opts m =
      and_then (call net (declare_exchange opts.exchange opts.exchange_type) m)
        (call net (publish_message opts.exchange opts.routing_key opts.body))

  unfoldable pub publish : PublishOptions → Op
  publish opts m = retry_with_reconnect net "publish" (publish_once opts) m

  unfoldable pub attempt_fanout_publish : String → String → Op
  attempt_fanout_publish exchange body m =
      and_then (call net (declare_exchange exchange exchange_fanout) m)
        (call net (publish_message exchange "" body))

  unfoldable pub fanout_publish : String → String → Op
  fanout_publish exchange body m =
      retry_with_reconnect net "publish" (attempt_fanout_publish exchange body) m

  abbrev pub step : String → Command → Op
  step text c m = wrapped text (call net c m)

  unfoldable pub setup_subscription : SubscribeOptions → Op
  setup_subscription opts m =
      let dlx = text_append opts.exchange ".dlx" in
      let dlq = text_append opts.queue_name ".dlq" in
      and_then (step "failed to set QoS: " (set_qos 10) m) (λ m.
        and_then
          (step (text_append "failed to declare DLX " (text_append dlx ": "))
            (declare_exchange dlx exchange_topic) m)
          (λ m.
            and_then
              (step (text_append "failed to declare DLQ " (text_append dlq ": "))
                (declare_queue dlq) m)
              (λ m. and_then (step "failed to bind DLQ to DLX: " (bind_queue dlq "#" dlx) m) (λ m.
                and_then
                  (step
                    (text_append "failed to declare main exchange "
                      (text_append opts.exchange ": "))
                    (declare_exchange opts.exchange opts.exchange_type) m)
                  (λ m.
                    and_then
                      (step
                        (text_append "failed to declare queue " (text_append opts.queue_name ": "))
                        (declare_dead_letter_queue opts.queue_name dlx) m)
                      (step "failed to bind queue to exchange: "
                        (bind_queue opts.queue_name opts.binding_key opts.exchange)))))))

  -- The start of a round of Subscribe: none where the loop goes on after a new connection.
  unfoldable pub subscribe_setup :
      SubscribeOptions → Manager → Option (Result String (Unit {0})) × Manager
  subscribe_setup opts m = elim (setup_subscription opts m).0 [
    | ok u ↦ (some (ok u), (setup_subscription opts m).1)
    | err e ↦ elim (is_connection_error e (setup_subscription opts m).1) [
      | false ↦ (
        some (err (text_append "failed to setup subscription: " e)),
        (setup_subscription opts m).1,
      )
      | true ↦ elim (reconnect net (setup_subscription opts m).1).0 [
        | ok u ↦ (none, (reconnect net (setup_subscription opts m).1).1)
        | err e' ↦ (
          some (err (text_append "failed to reconnect during subscription setup: " e')),
          (reconnect net (setup_subscription opts m).1).1,
        )
      ]
    ]
  ]

module _ (fanout_net client_net : Network) where
  abbrev pub publish_parts :
      Option (String × String)
      → String
      → String
      → DelegatingPublisher
      → Result String (Unit {0}) × DelegatingPublisher
  publish_parts (some (exchange, routing_key)) name body p =
      let (r, m) =
        publish client_net
          (record {
            exchange = exchange;
            exchange_type = exchange_topic;
            routing_key = routing_key;
            body = body;
          })
          p.client in
      (r, record p { client = m })
  publish_parts none name body p =
      let (r, m) = fanout_publish fanout_net name body p.fanout_publisher in
      (r, record p { fanout_publisher = m })

  unfoldable pub delegating_publish :
      String → String → DelegatingPublisher → Result String (Unit {0}) × DelegatingPublisher
  delegating_publish name body p = publish_parts (split_colon name) name body p
