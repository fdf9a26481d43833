-- ===== src/Rabbit/Tests.antt =====
-- A broker that drops the connection once.
use microservices.Prelude.{ℕ, zero, suc, ◌≡◌, refl, true, false, String, [], ◌∷◌, some, text_append}
use microservices.Prelude.Rows.{take}
use microservices.Grpc.{live}
use microservices.Effect.{ok, err}
use microservices.Events.{product_created_routing_key, product_exchange_name}
use microservices.Rabbit.{
  Network, connected, declare_exchange, Called, answered, fails, Manager, alive, connect, reconnect,
  try_reconnect, retry_with_reconnect, call, is_connection_error,
}
use microservices.Rabbit.Client.{
  PublishOptions, SubscribeOptions, publish_once, publish, attempt_fanout_publish, fanout_publish,
  setup_subscription, subscribe_setup, DelegatingPublisher, delegating_publish, exchange_topic,
}
use microservices.Rabbit.Bounds.{IsReconnection, doubled, reconnect-IsReconnection}
use microservices.Rabbit.Publishing.{IsOf, EndsWith, publish-Sends}
use microservices.Rabbit.Sending.{Sends}
use microservices.Rabbit.Subscription.{subscribe_setup-gives_up}

opened : Unit {0}
unfolding connect reconnect try_reconnect retry_with_reconnect call is_connection_error publish_once
    publish attempt_fanout_publish fanout_publish setup_subscription subscribe_setup
    delegating_publish
opened = tt

-- The second call fails and closes the connection.
abbrev second : ℕ → Called
second (suc zero) = fails true false false "EOF"
second _ = answered true

abbrev network : (ℕ → Called) → Network
network calls = record {
  dial = λ n. connected;
  wait = λ n. live;
  call = calls;
  context_text = λ c. "context canceled";
}

abbrev fresh : Manager
fresh = record {
  connection = alive;
  channel = true;
  dials = 1;
  waits = [];
  waited = 0;
  calls = 0;
  outgoing = [];
  broker = [];
}

abbrev created : PublishOptions
created = record {
  exchange = product_exchange_name;
  exchange_type = exchange_topic;
  routing_key = product_created_routing_key;
  body = "{}";
}

publishes_again :
    ((publish (network second) created fresh).0 ≡ ok tt)
    × ((publish (network second) created fresh).1.dials ≡ 2)
    × ((publish (network second) created fresh).1.waits ≡ 1000 ∷ 100 ∷ [])
unfolding opened
publishes_again = (refl, refl, refl)

publish-Sends_example :
    Sends (IsOf created) 6 20 fresh (publish (network second) created fresh).1
    × ((publish (network second) created fresh).0 ≡ ok tt
        → EndsWith created (publish (network second) created fresh).1)
publish-Sends_example = publish-Sends (network second) created fresh

-- Every call returns nil, but the broker keeps no message.
abbrev forgetful : ℕ → Called
forgetful _ = answered false

-- Publish succeeds, and the broker has only declared the exchange: nothing asks it to confirm.
loses :
    ((publish (network forgetful) created fresh).0 ≡ ok tt)
    × ((publish (network forgetful) created fresh).1.broker
        ≡ declare_exchange product_exchange_name exchange_topic ∷ [])
unfolding opened
loses = (refl, refl)

reconnect-IsReconnection_example :
    (k : IsReconnection 10 1000 fresh (reconnect (network second) fresh)) × (k.times
      ≡ take k.spent doubled)
reconnect-IsReconnection_example = reconnect-IsReconnection (network second) fresh

abbrev publisher : DelegatingPublisher
publisher = record { fanout_publisher = fresh; client = fresh }

-- The names of the outbox: the events of products go to the topic by the client, that of missing
-- stock to its fanout by the other publisher.
routed :
    ((delegating_publish
        (network forgetful)
        (network second)
        "products.events:product.created"
        "{}"
        publisher).1.client
      ≡ (publish (network second) created fresh).1)
    × ((delegating_publish
          (network second)
          (network forgetful)
          "stock_update_failed"
          "{}"
          publisher).1.fanout_publisher
        ≡ (fanout_publish (network second) "stock_update_failed" "{}" fresh).1)
unfolding opened
routed = (refl, refl)

abbrev not_open : ℕ → Called
not_open _ = fails false false false "Exception (504) Reason: \"channel/connection is not open\""

abbrev subscription : SubscribeOptions
subscription = record {
  exchange = "e";
  exchange_type = exchange_topic;
  queue_name = "q";
  binding_key = "#";
}

abbrev refusal : String
refusal = "failed to set QoS: Exception (504) Reason: \"channel/connection is not open\""

refused : (setup_subscription (network not_open) subscription fresh).0 ≡ err refusal
unfolding opened
refused = refl

still_alive : (setup_subscription (network not_open) subscription fresh).1.connection ≡ alive
unfolding opened
still_alive = refl

has_channel : (setup_subscription (network not_open) subscription fresh).1.channel ≡ true
unfolding opened
has_channel = refl

subscribe_setup-gives_up_example : subscribe_setup (network not_open) subscription fresh ≡ (
  some (err (text_append "failed to setup subscription: " refusal)),
  (setup_subscription (network not_open) subscription fresh).1,
)
subscribe_setup-gives_up_example =
    subscribe_setup-gives_up (network not_open) subscription fresh refusal refused still_alive
      has_channel
