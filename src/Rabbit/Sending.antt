-- ===== src/Rabbit/Sending.antt =====
-- What retried operations send at most, and how they end.
use microservices.Prelude.Lists.{All, All-append, append_assoc, append_none}
use microservices.Prelude.{
  ℕ, zero, suc, ◌+◌, ◌*◌, ◌≤◌, ◌≡◌, refl, ap, sym, ◌∙◌, inl, inr, Bool, true, false, ◌==◌, String,
  List, [], ◌∷◌, ◌++◌, Bool-cases, arith,
}
use microservices.Effect.{Result, ok, err}
use microservices.Rabbit.{
  Network, Manager, Op, Command, Called, answered, fails, and_then, on_error, should_return, slept,
  backoff, reconnect, reconnected, try_reconnect, retry_unless, retry_from, after_call, call,
  is_connection_error,
}
use microservices.Rabbit.Bounds.{reconnect-IsReconnection}

abbrev pub Run : Type 0
Run = Result String (Unit {0}) × Manager

-- From one state to another with at most so many calls and dials, and no commands but those that
-- are allowed.
pub record Sends (allowed : Command → Type 0) (calls dials : ℕ) (m m' : Manager) : Type 0 where
  pub sent : List Command
  pub permitted : All allowed sent
  pub listed : m'.outgoing ≡ m.outgoing ++ sent
  pub few_calls : m'.calls ≤ m.calls + calls
  pub few_dials : m'.dials ≤ m.dials + dials

module _ (allowed : Command → Type 0) where
  Sends-then :
      (n n' d d' : ℕ) (m v w : Manager)
      → Sends allowed n d m v
      → Sends allowed n' d' v w
      → Sends allowed (n + n') (d + d') m w
  Sends-then n n' d d' m v w a b =
      let ac = a.few_calls in
      let ad = a.few_dials in
      let bc = b.few_calls in
      let bd = b.few_dials in
      record {
        sent = a.sent ++ b.sent;
        permitted = All-append allowed a.sent b.sent a.permitted b.permitted;
        listed = b.listed ∙ ap (λ l. l ++ b.sent) a.listed ∙ append_assoc m.outgoing a.sent b.sent;
        few_calls = omega arith;
        few_dials = omega arith;
      }

  Sends-within :
      {n d : ℕ} (n' d' : ℕ) (m v : Manager)
      → n ≤ n'
      → d ≤ d'
      → Sends allowed n d m v
      → Sends allowed n' d' m v
  Sends-within n' d' m v x y a =
      let ac = a.few_calls in
      let ad = a.few_dials in
      record {
        sent = a.sent;
        permitted = a.permitted;
        listed = a.listed;
        few_calls = omega arith;
        few_dials = omega arith;
      }

  Sends-none :
      (m v : Manager)
      → v.outgoing ≡ m.outgoing
      → v.calls ≡ m.calls
      → v.dials ≤ m.dials + 10
      → Sends allowed 0 10 m v
  Sends-none m v b c d = record {
    sent = [];
    permitted = tt;
    listed = b ∙ sym (append_none m.outgoing);
    few_calls = omega arith;
    few_dials = d;
  }

  Sends-nothing : (m : Manager) → Sends allowed 0 0 m m
  Sends-nothing m = record {
    sent = [];
    permitted = tt;
    listed = sym (append_none m.outgoing);
    few_calls = omega arith;
    few_dials = omega arith;
  }

  on_error-Sends :
      (n n' d d' : ℕ) (m : Manager) (r : Run) (f : String → Op)
      → Sends allowed n d m r.1
      → ((e : String) → r.0 ≡ err e → Sends allowed n' d' r.1 (f e r.1).1)
      → Sends allowed (n + n') (d + d') m (on_error r f).1
  on_error-Sends n n' d d' m (ok u, v) f a k =
      Sends-within (n + n') (d + d') m v (omega arith) (omega arith) a
  on_error-Sends n n' d d' m (err e, v) f a k = Sends-then n n' d d' m v _ a (k e refl)

  pub and_then-Sends :
      (n n' d d' : ℕ) (m : Manager) (r : Run) (f : Op)
      → Sends allowed n d m r.1
      → Sends allowed n' d' r.1 (f r.1).1
      → Sends allowed (n + n') (d + d') m (and_then r f).1
  and_then-Sends n n' d d' m (ok u, v) f a k = Sends-then n n' d d' m v _ a k
  and_then-Sends n n' d d' m (err e, v) f a k =
      Sends-within (n + n') (d + d') m v (omega arith) (omega arith) a

  module _ (net : Network) where
    pub call-Sends : (c : Command) (m : Manager) → allowed c → Sends allowed 1 0 m (call net c m).1
    unfolding call
    call-Sends c m h = go (net.call m.calls)
      where
        go : (a : Called) → Sends allowed 1 0 m (after_call net c a m).1
        go (answered kept) = record {
          sent = c ∷ [];
          permitted = (h, tt);
          listed = refl;
          few_calls = omega arith;
          few_dials = omega arith;
        }
        go (fails closes true kept e) = record {
          sent = c ∷ [];
          permitted = (h, tt);
          listed = refl;
          few_calls = omega arith;
          few_dials = omega arith;
        }
        go (fails closes false kept e) = record {
          sent = [];
          permitted = tt;
          listed = sym (append_none m.outgoing);
          few_calls = omega arith;
          few_dials = omega arith;
        }

    try_reconnect-Sends : (m : Manager) → Sends allowed 0 10 m (try_reconnect net m).1
    unfolding try_reconnect
    try_reconnect-Sends m =
        let (k, _) = reconnect-IsReconnection net m in
        let few = k.at_most in
        let count = k.counted in
        rw (state (reconnect net m))
          (Sends-none m (reconnect net m).1 k.same_outgoing k.same_calls (omega arith))
      where
        state : (r : Run) → (reconnected net r).1 ≡ r.1
        state (ok u, v) = refl
        state (err e, v) = refl

    retry_unless-Sends :
        (b : Bool) (n d : ℕ) (f : Op) (e : String) (v : Manager)
        → ((w : Manager) → Sends allowed n d w (f w).1)
        → Sends allowed n (10 + d) v (retry_unless net b f e v).1
    retry_unless-Sends true n d f e v k =
        Sends-within n (10 + d) v v (omega arith) (omega arith) (Sends-nothing v)
    retry_unless-Sends false n d f e v k = Sends-within n (10 + d) v _ (omega arith) (omega arith) (
        and_then-Sends 0 n 10 d v (try_reconnect net v) f (try_reconnect-Sends v)
          (k (try_reconnect net v).1))

    slept-Sends :
        (n d t : ℕ) (w v : Manager) → Sends allowed n d (slept t w) v → Sends allowed n d w v
    slept-Sends n d t w v a = record {
      sent = a.sent;
      permitted = a.permitted;
      listed = a.listed;
      few_calls = a.few_calls;
      few_dials = a.few_dials;
    }

    -- The attempt with number 3 returns its error, so it dials no more.
    pub retry_from-Sends :
        (name : String) (op : Op) (left attempt : ℕ) (m : Manager)
        → attempt + left ≡ 3
        → ((v : Manager) → Sends allowed 2 0 v (op v).1)
        → Sends allowed (2 + left * 2) (left * 10) m (retry_from net name op (suc left) attempt m).1
    retry_from-Sends name op zero attempt m e k =
        let three : (attempt == 3) ≡ true = ground arith in
        Sends-within _ _ m _ (omega arith) (omega arith) (
          on_error-Sends 2 0 0 0 m (op m) _ (k m)
            (λ x h. rw (returns x (op m).1 three) (Sends-nothing (op m).1)))
      where
        returns :
            (x : String) (v : Manager) → (attempt == 3) ≡ true → should_return x attempt v ≡ true
        returns x v h = elim (Bool-cases (is_connection_error x v)) [
          | inl b ↦ rw (b, h) refl
          | inr b ↦ rw b refl
        ]
    retry_from-Sends name op (suc left) attempt m e k =
        Sends-within _ _ m _ (omega arith) (omega arith) (
          on_error-Sends 2 (2 + left * 2) 0 (10 + left * 10) m (op m) _ (k m) (λ x h.
            retry_unless-Sends (should_return x attempt (op m).1) (2 + left * 2) (left * 10) _ x
              (op m).1
              (λ w. slept-Sends _ _ (backoff * attempt) w _ (
                retry_from-Sends name op left (suc attempt) (slept (backoff * attempt) w)
                  (omega arith) k))))

module _ (ended : Manager → Type 0) where
  on_error-ends :
      (r : Run) (f : String → Op)
      → (r.0 ≡ ok tt → ended r.1)
      → ((e : String) (v : Manager) → (f e v).0 ≡ ok tt → ended (f e v).1)
      → (on_error r f).0 ≡ ok tt
      → ended (on_error r f).1
  on_error-ends (ok u, v) f a k h = a h
  on_error-ends (err e, v) f a k h = k e v h

  pub and_then-ends :
      (r : Run) (f : Op)
      → ((v : Manager) → (f v).0 ≡ ok tt → ended (f v).1)
      → (and_then r f).0 ≡ ok tt
      → ended (and_then r f).1
  and_then-ends (ok u, v) f k h = k v h
  and_then-ends (err e, v) f k h = cc

  module _ (net : Network) where
    retry_unless-ends :
        (b : Bool) (f : Op) (e : String) (v : Manager)
        → ((w : Manager) → (f w).0 ≡ ok tt → ended (f w).1)
        → (retry_unless net b f e v).0 ≡ ok tt
        → ended (retry_unless net b f e v).1
    retry_unless-ends true f e v k h = cc
    retry_unless-ends false f e v k h = and_then-ends (try_reconnect net v) f k h

    pub retry_from-ends :
        (name : String) (op : Op) (left attempt : ℕ) (m : Manager)
        → ((v : Manager) → (op v).0 ≡ ok tt → ended (op v).1)
        → (retry_from net name op left attempt m).0 ≡ ok tt
        → ended (retry_from net name op left attempt m).1
    retry_from-ends name op zero attempt m k h = cc
    retry_from-ends name op (suc left) attempt m k h =
        on_error-ends (op m) _ (k m)
          (λ e v.
            retry_unless-ends (should_return e attempt v) _ e v
              (λ w. retry_from-ends name op left (suc attempt) (slept (backoff * attempt) w) k))
          h
