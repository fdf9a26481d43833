-- ===== src/Rabbit.antt =====
-- shared/rabbitmq/connection.go: the connection to the broker, and operations that reconnect.
pub mod Client
pub mod Bounds
pub mod Sending
pub mod Publishing
pub mod Subscription
mod Tests
use microservices.Prelude.{
  ℕ, zero, suc, ◌+◌, ◌*◌, String, Bool, true, false, not, ◌||◌, ◌&&◌, ◌==◌, ltb, List, [], ◌∷◌,
  ◌++◌, if◌then◌else◌, str_eq, text_append,
}
use microservices.Grpc.{ContextState, live}
use microservices.Effect.{Result, ok, err}

-- What amqp091.Dial and Connection.Channel come to, with the text of an error.
pub data Dialed : Type 0 where
  refused : String → Dialed
  no_channel : String → Dialed
  connected : Dialed

-- What a call on a channel comes to: it returns nil, or it fails with a text. `closes` says whether
-- the connection is closed then, `written` whether the command had been written to it before, and
-- `kept` whether the broker carries out what was written.
pub data Called : Type 0 where
  answered : (kept : Bool) → Called
  fails : (closes written kept : Bool) → String → Called

-- The broker, the network and the clock, which no code here determines: the n-th dial, the n-th wait
-- (the context that ends it, or `live` if the timer does), the n-th call, and the texts of the
-- context's errors.
pub record Network : Type 0 where
  pub dial : ℕ → Dialed
  pub wait : ℕ → ContextState
  pub call : ℕ → Called
  pub context_text : ContextState → String

-- amqp091.Connection: nil, closed or open.
pub data Link : Type 0 where
  missing closed alive : Link

-- The calls on a channel.
pub data Command : Type 0 where
  set_qos : ℕ → Command
  declare_exchange : String → String → Command
  declare_queue : String → Command
  declare_dead_letter_queue : String → String → Command
  bind_queue : String → String → String → Command
  publish_message : String → String → String → Command

-- connectionManager, with the history of its dials, waits (in milliseconds) and calls, the commands
-- that were written to a connection, and those of them that the broker carried out.
pub record Manager : Type 0 where
  pub connection : Link
  pub channel : Bool
  pub dials : ℕ
  pub waits : List ℕ
  pub waited : ℕ
  pub calls : ℕ
  pub outgoing : List Command
  pub broker : List Command

abbrev pub Op : Type 0
Op = Manager → Result String (Unit {0}) × Manager

abbrev pub and_then : Result String (Unit {0}) × Manager → Op → Result String (Unit {0}) × Manager
and_then (ok u, m) f = f m
and_then (err e, m) f = (err e, m)

-- The error of a step is handled, in the state after it.
abbrev pub on_error :
    Result String (Unit {0}) × Manager → (String → Op) → Result String (Unit {0}) × Manager
on_error (ok u, m) f = (ok u, m)
on_error (err e, m) f = f e m

abbrev pub max_retries : ℕ
max_retries = 3

abbrev pub backoff : ℕ
backoff = 100

abbrev pub max_attempts : ℕ
max_attempts = 10

abbrev pub max_backoff : ℕ
max_backoff = 30000

abbrev pub next_backoff : ℕ → ℕ
next_backoff b = if ltb max_backoff (b * 2) then max_backoff else b * 2

abbrev pub dialed : Dialed → Op
dialed (refused e) m =
    (err (text_append "failed to connect to RabbitMQ: " e), record m { dials = suc m.dials })
dialed (no_channel e) m =
    (err (text_append "failed to open channel: " e), record m { dials = suc m.dials })
dialed connected m = (ok tt, record m { connection = alive; channel = true; dials = suc m.dials })

abbrev pub slept : ℕ → Manager → Manager
slept t m = record m { waits = m.waits ++ t ∷ [] }

-- The four texts that count as errors of the connection.
abbrev pub is_connection_text : String → Bool
is_connection_text e =
    str_eq e "Exception (504) Reason: \"channel/connection is not open\""
    || str_eq e "Exception (320) Reason: \"CONNECTION_FORCED\""
    || str_eq e "write tcp: broken pipe"
    || str_eq e "EOF"

unfoldable pub is_connection_error : String → Manager → Bool
is_connection_error e m = elim m.connection [
  | missing ↦ true
  | closed ↦ true
  | alive ↦ not m.channel || is_connection_text e
]

abbrev pub should_return : String → ℕ → Manager → Bool
should_return e attempt m = not (is_connection_error e m) || (attempt == max_retries)

module _ (net : Network) where
  unfoldable pub connect : Op
  connect m = dialed (net.dial m.dials) m

  -- The attempts that are left, and the time to wait before the next.
  abbrev pub reconnect_from : ℕ → ℕ → Op
  reconnect_from zero b m = (err "max reconnection attempts reached: 10", m)
  reconnect_from (suc left) b m = elim (net.wait m.waited) [
    | live ↦
        on_error (connect (slept b (record m { waited = suc m.waited })))
          (λ e. reconnect_from left (next_backoff b))
    | c ↦ (err (net.context_text c), record m { waited = suc m.waited })
  ]

  unfoldable pub reconnect : Op
  reconnect m = reconnect_from max_attempts 1000 m

  abbrev pub reconnected : Result String (Unit {0}) × Manager → Result String (Unit {0}) × Manager
  reconnected (ok u, m) = (ok u, m)
  reconnected (err e, m) = (err (text_append "failed to reconnect: " e), m)

  unfoldable pub try_reconnect : Op
  try_reconnect m = reconnected (reconnect m)

  abbrev pub retry_unless : Bool → Op → String → Op
  retry_unless true retry e m = (err e, m)
  retry_unless false retry e m = and_then (try_reconnect m) retry

  abbrev pub retry_from : String → Op → (left attempt : ℕ) → Op
  retry_from name op zero attempt m = (err (text_append name " failed after 3 retries"), m)
  retry_from name op (suc left) attempt m = on_error (op m) (λ e m.
      retry_unless (should_return e attempt m)
        (λ m. retry_from name op left (suc attempt) (slept (backoff * attempt) m)) e m)

  unfoldable pub retry_with_reconnect : String → Op → Op
  retry_with_reconnect name op m = retry_from name op max_retries 1 m

  -- A call of ExchangeDeclare and the like waits for the broker's answer. PublishWithContext does
  -- not: no channel is put into confirm mode, so a message may be lost after a nil error.
  abbrev pub is_kept : Command → Bool → Bool
  is_kept (publish_message exchange routing_key body) kept = kept
  is_kept c kept = true

  -- A call on the channel.
  abbrev pub after_call : Command → Called → Op
  after_call c (answered kept) m = (
    ok tt,
    record m {
      calls = suc m.calls;
      outgoing = m.outgoing ++ c ∷ [];
      broker = if is_kept c kept then m.broker ++ c ∷ [] else m.broker;
    },
  )
  after_call c (fails closes written kept e) m = (
    err e,
    record m {
      calls = suc m.calls;
      connection = if closes then closed else m.connection;
      outgoing = if written then m.outgoing ++ c ∷ [] else m.outgoing;
      broker = if written && kept then m.broker ++ c ∷ [] else m.broker;
    },
  )

  unfoldable pub call : Command → Op
  call c m = after_call c (net.call m.calls) m
