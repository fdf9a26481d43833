-- ===== src/Rabbit/Publishing.antt =====
-- What publishing sends, on success and on failure.
use microservices.Prelude.Lists.{append_assoc}
use microservices.Prelude.{◌≡◌, refl, ap, ◌∙◌, List, [], ◌∷◌, ◌++◌}
use microservices.Effect.{ok, err}
use microservices.Rabbit.{
  Network, Manager, Command, Called, answered, fails, declare_exchange, publish_message, and_then,
  retry_with_reconnect, after_call, call,
}
use microservices.Rabbit.Client.{PublishOptions, publish_once, publish}
use microservices.Rabbit.Sending.{
  Run, Sends, and_then-Sends, call-Sends, retry_from-Sends, retry_from-ends,
}

-- What a publication may send: the declaration of the exchange, and the message.
pub data IsOf (opts : PublishOptions) : Command → Type 0 where
  declares : IsOf opts (declare_exchange opts.exchange opts.exchange_type)
  publishes : IsOf opts (publish_message opts.exchange opts.routing_key opts.body)

-- The last command that was written is the message, right after the declaration of its exchange.
pub record EndsWith (opts : PublishOptions) (m : Manager) : Type 0 where
  pub before : List Command
  pub ends :
      m.outgoing
      ≡ before
        ++ declare_exchange opts.exchange opts.exchange_type
          ∷ publish_message opts.exchange opts.routing_key opts.body
          ∷ []

module _ (net : Network) (opts : PublishOptions) where
  publish_once-Sends : (m : Manager) → Sends (IsOf opts) 2 0 m (publish_once net opts m).1
  unfolding publish_once
  publish_once-Sends m =
      and_then-Sends (IsOf opts) 1 1 0 0 m
        (call net (declare_exchange opts.exchange opts.exchange_type) m) _
        (call-Sends (IsOf opts) net _ m declares) (call-Sends (IsOf opts) net _ _ publishes)

  pub call-ok :
      (c : Command) (m : Manager)
      → (call net c m).0 ≡ ok tt
      → (call net c m).1.outgoing ≡ m.outgoing ++ c ∷ []
  unfolding call
  call-ok c m h = go (net.call m.calls) h
    where
      go :
          (a : Called)
          → (after_call net c a m).0 ≡ ok tt
          → (after_call net c a m).1.outgoing ≡ m.outgoing ++ c ∷ []
      go (answered kept) h = refl
      go (fails closes written kept e) h = cc

  publish_once-EndsWith :
      (m : Manager)
      → (publish_once net opts m).0 ≡ ok tt
      → EndsWith opts (publish_once net opts m).1
  unfolding publish_once
  publish_once-EndsWith m h = go (call net declared m) (call-ok declared m) h
    where
      declared : Command
      declared = declare_exchange opts.exchange opts.exchange_type

      go :
          (r : Run)
          → (r.0 ≡ ok tt → r.1.outgoing ≡ m.outgoing ++ declared ∷ [])
          → (and_then r (call net (publish_message opts.exchange opts.routing_key opts.body))).0
            ≡ ok tt
          → EndsWith opts
              (and_then r (call net (publish_message opts.exchange opts.routing_key opts.body))).1
      go (ok u, v) first h = record {
        before = m.outgoing;
        ends =
            call-ok _ v h
            ∙ ap (λ l. l ++ publish_message opts.exchange opts.routing_key opts.body ∷ [])
                (first refl)
            ∙ append_assoc m.outgoing (declared ∷ []) _;
      }
      go (err e, v) first h = cc

  -- Publish ends after at most six calls on a channel and twenty dials, whatever the network does,
  -- and writes no command but the declaration of its exchange and its message; where it succeeds,
  -- the last two commands that were written to a connection are that declaration and the message.
  pub publish-Sends :
      (m : Manager)
      → Sends (IsOf opts) 6 20 m (publish net opts m).1
        × ((publish net opts m).0 ≡ ok tt → EndsWith opts (publish net opts m).1)
  unfolding publish retry_with_reconnect
  publish-Sends m = (
    retry_from-Sends (IsOf opts) net "publish" (publish_once net opts) 2 1 m refl
        publish_once-Sends,
    retry_from-ends (EndsWith opts) net "publish" (publish_once net opts) 3 1 m
        publish_once-EndsWith,
  )
