-- ===== src/Publisher/Counts.antt =====
-- What the publisher of pkg/publisher/zmq.go counts, and what it sends.
use text.Mathlib.Text.{◌==◌ as str_eq}
use spark_trade_mft_raw_data.Prelude.{
  ℕ, suc, ◌+◌, ◌%◌, String, Bool, false, not, Option, none, some, List, [], ◌∷◌, ◌++◌, length,
  length-append, All, All-append, if_cases, arith, ◌≡◌, refl, sym, subst,
}
use spark_trade_mft_raw_data.Prelude.Int.{ℤ}
use spark_trade_mft_raw_data.Prelude.Word.{IsU64}
use spark_trade_mft_raw_data.Event.{CanonicalEvent}
use spark_trade_mft_raw_data.Publisher.{
  PublishError, not_running, marshal_error, not_initialized, send_error, Publisher, start,
  start_heartbeat, stop, Parts, Published, send_with_timeout, count_send, topic_of, heartbeat_event,
  send_event, publish, PublisherOp, starts, stops, publishes, ticks, publisher_step, publisher_run,
}

-- a call on a publisher that is not running is not counted as a loss
unfoldable pub losses : List PublishError → ℕ
losses [] = 0
losses (not_running ∷ es) = losses es
losses (marshal_error ∷ es) = suc (losses es)
losses (not_initialized ∷ es) = suc (losses es)
losses (send_error ∷ es) = suc (losses es)

losses-append : (xs ys : List PublishError) → losses (xs ++ ys) ≡ losses xs + losses ys
unfolding losses
losses-append [] ys = omega arith
losses-append (not_running ∷ xs) ys = losses-append xs ys
losses-append (marshal_error ∷ xs) ys = omega (arith, losses-append xs ys)
losses-append (not_initialized ∷ xs) ys = omega (arith, losses-append xs ys)
losses-append (send_error ∷ xs) ys = omega (arith, losses-append xs ys)

abbrev pub errors_of : Option PublishError → List PublishError
errors_of e = elim e [ none ↦ [] | some x ↦ x ∷ [] ]

module _ {F J : Type 0} (marshal : CanonicalEvent F J → Option (List ℕ)) where
  -- a message of an event: its JSON under its topic, which is not empty
  pub record IsMessage (m : Parts) : Type 0 where
    pub event : CanonicalEvent F J
    pub topic : m.topic ≡ topic_of event
    pub body : marshal event ≡ some m.body
    pub filled : str_eq m.topic "" ≡ false

  -- the two counters from `p` to `q`, by what has been sent and the errors
  pub record Tallied (p q : Publisher) (sent : List Parts) (errors : List PublishError)
      : Type 0 where
    pub published : q.published ≡ (p.published + length sent) % 0x1_0000_0000_0000_0000
    pub dropped : q.dropped ≡ (p.dropped + losses errors) % 0x1_0000_0000_0000_0000
    pub messages : All IsMessage sent

  abbrev pub IsCounting : Publisher → Type 0
  IsCounting p = IsU64 p.published × IsU64 p.dropped

  idle :
      (p q : Publisher)
      → IsCounting p
      → q.published ≡ p.published
      → q.dropped ≡ p.dropped
      → Tallied p q [] []
  unfolding losses
  idle p q (a, b) e f = record { published = omega arith; dropped = omega arith; messages = tt }

  abbrev TalliedBy : Publisher → Published → Type 0
  TalliedBy p r = Tallied p r.publisher r.sent (errors_of r.error)

  topic_of-filled : (e : CanonicalEvent F J) → str_eq (topic_of e) "" ≡ false
  unfolding topic_of
  topic_of-filled e =
      if_cases (λ t. str_eq t "" ≡ false) (str_eq e.canonical_symbol "") (λ _. refl) (λ h. h)

  send_event-Tallied :
      (takes : Bool) (e : CanonicalEvent F J) (body : Option (List ℕ)) (p : Publisher)
      → marshal e ≡ body
      → IsCounting p
      → TalliedBy p (send_event marshal takes (topic_of e) body p)
  unfolding send_event count_send send_with_timeout losses
  send_event-Tallied takes e none p h (a, b) = record {
    published = omega arith;
    dropped = refl;
    messages = tt;
  }
  send_event-Tallied takes e (some body) p h (a, b) =
      if_cases (λ r. TalliedBy p (count_send r p)) (not p.bound)
        (λ _. record { published = omega arith; dropped = refl; messages = tt })
        (λ _.
          if_cases (λ r. TalliedBy p (count_send r p)) takes
            (λ _. record {
              published = refl;
              dropped = omega arith;
              messages =
                  (record { event = e; topic = refl; body = h; filled = topic_of-filled e }, tt);
            })
            (λ _. record { published = omega arith; dropped = refl; messages = tt }))

  publish-Tallied :
      (takes : Bool) (e : CanonicalEvent F J) (p : Publisher)
      → IsCounting p
      → TalliedBy p (publish marshal takes e p)
  unfolding publish losses
  publish-Tallied takes e p (a, b) =
      if_cases (TalliedBy p) (not p.running)
        (λ _. record { published = omega arith; dropped = omega arith; messages = tt })
        (λ _. send_event-Tallied takes e (marshal e) p refl (a, b))

  module _ (empty : CanonicalEvent F J) (show : ℤ → String) where
    publisher_step-Tallied :
        (o : PublisherOp F J) (p : Publisher)
        → IsCounting p
        → TalliedBy p (publisher_step marshal empty show o p)
    unfolding publisher_step start start_heartbeat stop
    publisher_step-Tallied (starts none) p h = idle p _ h refl refl
    publisher_step-Tallied (starts (some e)) p h = idle p p h refl refl
    publisher_step-Tallied stops p h = idle p _ h refl refl
    publisher_step-Tallied (publishes takes e) p h = publish-Tallied takes e p h
    publisher_step-Tallied (ticks takes t u v) p h =
        if_cases (TalliedBy p) p.ticking
          (λ _. publish-Tallied takes (heartbeat_event empty show t u v) p h)
          (λ _. idle p p h refl refl)

    -- In a run of Start, Stop, calls of Publish and ticks of the heartbeat, with counters below 2^64
    -- before: the count of what is published is raised by the number of messages sent, and the
    -- count of drops by the calls with an error, but for those on a publisher that is not running,
    -- both modulo 2^64; and each message sent is the JSON of an event under the event's topic,
    -- which is not empty.
    pub publisher_run-Tallied :
        (os : List (PublisherOp F J)) (p : Publisher)
        → IsCounting p
        → let r = publisher_run marshal empty show os p in Tallied p r.2 r.0 r.1
    unfolding publisher_run
    publisher_run-Tallied [] p h = idle p p h refl refl
    publisher_run-Tallied (o ∷ os) p h =
        let s = publisher_step marshal empty show o p in
        let d = publisher_step-Tallied o p h in
        let r = publisher_run marshal empty show os s.publisher in
        let low : IsU64 s.publisher.published = subst IsU64 (sym d.published) (omega arith) in
        let low' : IsU64 s.publisher.dropped = subst IsU64 (sym d.dropped) (omega arith) in
        let k = publisher_run-Tallied os s.publisher (low, low') in
        record {
          published = omega (arith, k.published, d.published, length-append s.sent r.0);
          dropped = omega (arith, k.dropped, d.dropped, losses-append (errors_of s.error) r.1);
          messages = All-append IsMessage s.sent r.0 d.messages k.messages;
        }
