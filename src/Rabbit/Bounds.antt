-- ===== src/Rabbit/Bounds.antt =====
-- What a reconnection and a retried operation may use at most.
use microservices.Prelude.Lists.{All, append_none}
use microservices.Prelude.{
  ℕ, zero, suc, ◌+◌, ◌*◌, ◌≤◌, ◌≡◌, refl, ap, sym, ◌∙◌, ◌⊎◌, inl, inr, true, String, List, [], ◌∷◌,
  ◌++◌, Bool-cases, arith, ltb, text_append,
}
use microservices.Prelude.Rows.{length, take}
use microservices.Grpc.{ContextState, live, ctx_canceled, ctx_deadline_exceeded, ctx_failed}
use microservices.Effect.{Result, ok, err}
use microservices.Rabbit.{
  Network, Manager, alive, Dialed, refused, no_channel, connected, dialed, connect, reconnect_from,
  reconnect, slept, next_backoff, max_backoff,
}

ContextState-cases :
    (c : ContextState)
    → (c ≡ live) ⊎ ((c ≡ ctx_canceled) ⊎ ((c ≡ ctx_deadline_exceeded) ⊎ (c ≡ ctx_failed)))
ContextState-cases live = inl refl
ContextState-cases ctx_canceled = inr (inl refl)
ContextState-cases ctx_deadline_exceeded = inr (inr (inl refl))
ContextState-cases ctx_failed = inr (inr (inr refl))

-- A time that a loop waits for, in milliseconds.
abbrev pub IsBackoff : ℕ → Type 0
IsBackoff t = (1000 ≤ t) × (t ≤ 30000)

next_backoff-IsBackoff : (b : ℕ) → IsBackoff b → IsBackoff (next_backoff b)
next_backoff-IsBackoff b h = elim (Bool-cases (ltb max_backoff (b * 2))) [
  | inl e ↦ rw e (omega arith, omega arith)
  | inr e ↦ rw e (omega arith, ground arith)
]

-- The waits before so many dials, of which the first is given.
abbrev pub backoffs : ℕ → ℕ → List ℕ
backoffs zero b = []
backoffs (suc n) b = b ∷ backoffs n (next_backoff b)

-- The waits before ten dials.
abbrev pub doubled : List ℕ
doubled = 1000 ∷ 2000 ∷ 4000 ∷ 8000 ∷ 16000 ∷ 30000 ∷ 30000 ∷ 30000 ∷ 30000 ∷ 30000 ∷ []

take-backoffs : (n k b : ℕ) → n ≤ k → take n (backoffs k b) ≡ backoffs n b
take-backoffs zero k b h = refl
take-backoffs (suc n) zero b h = absurd (omega arith)
take-backoffs (suc n) (suc k) b h =
    ap (λ l. b ∷ l) (take-backoffs n k (next_backoff b) (omega arith))

-- A run of at most so many dials, with as many waits, each for a backoff, and no call on a channel;
-- if it succeeds, the connection is open and has a channel.
pub record IsReconnection (left b : ℕ) (m : Manager) (r : Result String (Unit {0}) × Manager)
    : Type 0 where
  pub spent : ℕ
  pub at_most : spent ≤ left
  pub counted : r.1.dials ≡ m.dials + spent
  pub times : List ℕ
  pub each : length times ≡ spent
  pub doubling : times ≡ backoffs spent b
  pub within : All IsBackoff times
  pub listed : r.1.waits ≡ m.waits ++ times
  pub same_calls : r.1.calls ≡ m.calls
  pub same_outgoing : r.1.outgoing ≡ m.outgoing
  pub opens : r.0 ≡ ok tt → (r.1.connection ≡ alive) × (r.1.channel ≡ true)

append_one : {A : Type 0} (xs ys : List A) (x : A) → (xs ++ x ∷ []) ++ ys ≡ xs ++ x ∷ ys
append_one [] ys x = refl
append_one (z ∷ xs) ys x = ap (λ zs. z ∷ zs) (append_one xs ys x)

module _ (net : Network) where
  pub connect-cases :
      (m : Manager)
      → (connect net m
          ≡ (ok tt, record m { connection = alive; channel = true; dials = suc m.dials }))
        ⊎ ((e : String) × (connect net m ≡ (err e, record m { dials = suc m.dials })))
  unfolding connect
  connect-cases m = go (net.dial m.dials)
    where
      go :
          (d : Dialed)
          → (dialed d m
              ≡ (ok tt, record m { connection = alive; channel = true; dials = suc m.dials }))
            ⊎ ((e : String) × (dialed d m ≡ (err e, record m { dials = suc m.dials })))
      go (refused e) = inr (text_append "failed to connect to RabbitMQ: " e, refl)
      go (no_channel e) = inr (text_append "failed to open channel: " e, refl)
      go connected = inl refl

  gives_up :
      (left b : ℕ) (m : Manager) (e : String)
      → IsReconnection (suc left) b m (err e, record m { waited = suc m.waited })
  gives_up left b m e = record {
    spent = 0;
    at_most = omega arith;
    counted = omega arith;
    times = [];
    each = refl;
    doubling = refl;
    within = tt;
    listed = sym (append_none m.waits);
    same_calls = refl;
    same_outgoing = refl;
    opens = λ h. cc;
  }

  after_failure :
      (left b : ℕ) (m : Manager) (r : Result String (Unit {0}) × Manager)
      → IsBackoff b
      → IsReconnection left
          (next_backoff b)
          (record (slept b (record m { waited = suc m.waited })) { dials = suc m.dials })
          r
      → IsReconnection (suc left) b m r
  after_failure left b m r h k =
      let less = k.at_most in
      let count = k.counted in
      record {
        spent = suc k.spent;
        at_most = omega arith;
        counted = omega arith;
        times = b ∷ k.times;
        each = ap (λ n. suc n) k.each;
        doubling = ap (λ l. b ∷ l) k.doubling;
        within = (h, k.within);
        listed = k.listed ∙ append_one m.waits k.times b;
        same_calls = k.same_calls;
        same_outgoing = k.same_outgoing;
        opens = k.opens;
      }

  reconnect_from-IsReconnection :
      (left b : ℕ) (m : Manager)
      → IsBackoff b
      → IsReconnection left b m (reconnect_from net left b m)
  reconnect_from-IsReconnection zero b m h = record {
    spent = 0;
    at_most = omega arith;
    counted = omega arith;
    times = [];
    each = refl;
    doubling = refl;
    within = tt;
    listed = sym (append_none m.waits);
    same_calls = refl;
    same_outgoing = refl;
    opens = λ h. cc;
  }
  reconnect_from-IsReconnection (suc left) b m h = elim (ContextState-cases (net.wait m.waited)) [
    | inr (inl e) ↦ rw (reconnect_from, e) (gives_up left b m (net.context_text ctx_canceled))
    | inr (inr (inl e)) ↦
        rw (reconnect_from, e) (gives_up left b m (net.context_text ctx_deadline_exceeded))
    | inr (inr (inr e)) ↦ rw (reconnect_from, e) (gives_up left b m (net.context_text ctx_failed))
    | inl e ↦ elim (connect-cases (slept b (record m { waited = suc m.waited }))) [
      | inl k ↦
          rw (reconnect_from, e, k)
            (record {
              spent = 1;
              at_most = omega arith;
              counted = omega arith;
              times = b ∷ [];
              each = refl;
              doubling = refl;
              within = (h, tt);
              listed = refl;
              same_calls = refl;
              same_outgoing = refl;
              opens = λ u. (refl, refl);
            })
      | inr (x, k) ↦
          rw (reconnect_from, e, k)
            (after_failure left b m _ h
              (reconnect_from-IsReconnection left (next_backoff b) _ (next_backoff-IsBackoff b h)))
    ]
  ]

  -- A reconnection dials at most ten times, waits once for each dial, for 1, 2, 4, 8 and 16 seconds
  -- and then for 30 seconds each, and makes no call on a channel; where it succeeds, the connection
  -- is open and has a channel.
  pub reconnect-IsReconnection :
      (m : Manager)
      → (k : IsReconnection 10 1000 m (reconnect net m)) × (k.times ≡ take k.spent doubled)
  unfolding reconnect
  reconnect-IsReconnection m =
      let k = reconnect_from-IsReconnection 10 1000 m (omega arith, omega arith) in
      (k, k.doubling ∙ sym (take-backoffs k.spent 10 1000 k.at_most))
