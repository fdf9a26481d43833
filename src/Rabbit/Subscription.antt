-- ===== src/Rabbit/Subscription.antt =====
-- shared/rabbitmq/client.go: a subscription whose setup fails.
use text.Mathlib.TextLemmas.{cons-append}
use Prim.Native.Char.{code}
use microservices.Prelude.{
  ℕ, arith, ◌≡◌, ◌≢◌, refl, ap, sym, ◌∙◌, true, false, String, str_eq, eq_iff, Bool-cases, inl, inr,
  text_append, some,
}
use microservices.Effect.{Result, ok, err}
use microservices.Rabbit.{
  Network, Manager, Op, Command, alive, is_connection_text, is_connection_error, and_then, call,
}
use microservices.Rabbit.Client.{
  SubscribeOptions, wrapped, step, setup_subscription, subscribe_setup,
}

-- A text that starts by "f", as every error of a setup does.
record IsSetupText (t : String) : Type 0 where
  rest : String
  starts : t ≡ String.◌∷◌ "f" rest

IsSetupText-append : (s t : String) → IsSetupText s → IsSetupText (text_append s t)
IsSetupText-append s t h = record {
  rest = text_append h.rest t;
  starts = ap (λ x. text_append x t) h.starts ∙ cons-append "f" h.rest t;
}

not_text : (t u : String) → t ≢ u → str_eq t u ≡ false
not_text t u h = elim (Bool-cases (str_eq t u)) [
  | inl b ↦ absurd (h ((eq_iff t u).0 b))
  | inr b ↦ b
]

abbrev head_code : String → ℕ
head_code String.[] = 0
head_code (String.◌∷◌ c s) = code c

another_head : (t u : String) → IsSetupText t → 102 ≢ head_code u → str_eq t u ≡ false
another_head t u h differs = not_text t u (λ k. differs (ap head_code (sym h.starts ∙ k)))

setup-not_connection : (t : String) → IsSetupText t → is_connection_text t ≡ false
setup-not_connection t h =
    let a =
      another_head t "Exception (504) Reason: \"channel/connection is not open\"" h
        (λ k. omega arith) in
    let b = another_head t "Exception (320) Reason: \"CONNECTION_FORCED\"" h (λ k. omega arith) in
    let c = another_head t "write tcp: broken pipe" h (λ k. omega arith) in
    let d = another_head t "EOF" h (λ k. omega arith) in rw (a, b, c, d) refl

not_connection :
    (e : String) (m : Manager)
    → m.connection ≡ alive
    → m.channel ≡ true
    → is_connection_text e ≡ false
    → is_connection_error e m ≡ false
unfolding is_connection_error
not_connection e m link channel h = rw (is_connection_error, link, channel) h

abbrev Run : Type 0
Run = Result String (Unit {0}) × Manager

record IsSetupRun (r : Run) : Type 0 where
  texts : (e : String) → r.0 ≡ err e → IsSetupText e

and_then-IsSetupRun :
    (r : Run) (g : Op)
    → IsSetupRun r
    → ((m : Manager) → IsSetupRun (g m))
    → IsSetupRun (and_then r g)
and_then-IsSetupRun (ok u, m) g a b = b m
and_then-IsSetupRun (err x, m) g a b = a

wrapped-IsSetupRun : (text : String) (r : Run) → IsSetupText text → IsSetupRun (wrapped text r)
wrapped-IsSetupRun text (ok u, m) h = record { texts = λ e k. cc }
wrapped-IsSetupRun text (err x, m) h = record {
  texts = λ e k.
      let same : text_append text x ≡ e = cc in
      let it = IsSetupText-append text x h in
      record { rest = it.rest; starts = sym same ∙ it.starts };
}

module _ (net : Network) (opts : SubscribeOptions) where
  step_then :
      (text : String) (c : Command) (g : Op) (m : Manager)
      → IsSetupText text
      → ((m : Manager) → IsSetupRun (g m))
      → IsSetupRun (and_then (step net text c m) g)
  step_then text c g m h k =
      and_then-IsSetupRun (step net text c m) g (wrapped-IsSetupRun text (call net c m) h) k

  abbrev literal : (rest : String) → IsSetupText (String.◌∷◌ "f" rest)
  literal rest = record { rest = rest; starts = refl }

  setup_subscription-IsSetupRun : (m : Manager) → IsSetupRun (setup_subscription net opts m)
  unfolding setup_subscription
  setup_subscription-IsSetupRun m = step_then _ _ _ m (literal "ailed to set QoS: ") (λ m.
      step_then _ _ _ m (IsSetupText-append _ _ (literal "ailed to declare DLX ")) (λ m.
        step_then _ _ _ m (IsSetupText-append _ _ (literal "ailed to declare DLQ ")) (λ m.
          step_then _ _ _ m (literal "ailed to bind DLQ to DLX: ") (λ m.
            step_then _ _ _ m (IsSetupText-append _ _ (literal "ailed to declare main exchange "))
              (λ m.
                step_then _ _ _ m (IsSetupText-append _ _ (literal "ailed to declare queue ")) (λ m.
                  wrapped-IsSetupRun _ (call net _ m)
                    (literal "ailed to bind queue to exchange: ")))))))

  -- A setup of a subscription that fails while the connection is open and has a channel ends
  -- Subscribe with an error and dials nothing, whatever the text of the error.
  pub subscribe_setup-gives_up :
      (m : Manager) (e : String)
      → (setup_subscription net opts m).0 ≡ err e
      → (setup_subscription net opts m).1.connection ≡ alive
      → (setup_subscription net opts m).1.channel ≡ true
      → subscribe_setup net opts m ≡ (
        some (err (text_append "failed to setup subscription: " e)),
        (setup_subscription net opts m).1,
      )
  unfolding subscribe_setup
  subscribe_setup-gives_up m e failed link channel =
      let it : is_connection_text e ≡ false =
        setup-not_connection e ((setup_subscription-IsSetupRun m).texts e failed) in
      let answer : is_connection_error e (setup_subscription net opts m).1 ≡ false =
        not_connection e (setup_subscription net opts m).1 link channel it in
      rw (subscribe_setup, failed, answer) refl
