-- ===== src/Ipc/Client/Queue.antt =====
-- What happens to the messages of the in-memory queue: `Send` fills it, and nothing reads it.
use spark_trade_mft_raw_data.Prelude.{
  ℕ, ◌≡◌, refl, ap, sym, ◌∙◌, true, ltb, Option, none, some, List, [], ◌∷◌, ◌++◌, append_assoc,
  append-nil, ◌==◌, if_cases, if◌then◌else◌, length,
}
use spark_trade_mft_raw_data.Ipc.{IpcError, Sink}
use spark_trade_mft_raw_data.Ipc.Spool.{Spool, Drained, FileFaults, append, drained, drain, lost}
use spark_trade_mft_raw_data.Ipc.Client.{
  Wire, Client, Step, Reach, sends, drains, breaks, stops, here, next, enqueue, enqueue_marshalled,
  spooled_to, send, send_message, break_at, break_conn, replay, replayed, connect, round, stop,
  send_frame,
}

-- A state with the same queue and the same flag.
pub record Same (c d : Client) : Type 0 where
  pub queue : d.queue ≡ c.queue
  pub spilling : d.spilling ≡ c.spilling

pub break_conn-Same : (c : Client) → Same c (break_conn c)
unfolding break_conn
break_conn-Same c = go c.wire.conn
  where
    go : (w : Option Sink) → Same c (break_at w c)
    go none = record { queue = refl; spilling = refl }
    go (some w) = record { queue = refl; spilling = refl }

pub Same-trans : {c d e : Client} → Same c d → Same d e → Same c e
Same-trans a b = record { queue = b.queue ∙ a.queue; spilling = b.spilling ∙ a.spilling }

replayed-Same : (c : Client) (r : Drained × Spool × Wire) → Same c (replayed c r)
unfolding replayed
replayed-Same c (drained n none, s, w) = record { queue = refl; spilling = refl }
replayed-Same c (drained n (some e), s, w) =
    let b = break_conn-Same (record c { spool = s; wire = w }) in
    record { queue = b.queue; spilling = b.spilling }
replayed-Same c (lost, s, w) = record { queue = refl; spilling = refl }

pub Same-refl : (c : Client) → Same c c
Same-refl c = record { queue = refl; spilling = refl }

replay-Same : (faults : FileFaults) (c : Client) → Same c (replay faults c)
unfolding replay
replay-Same faults c =
    if_cases (Same c) (c.spool.cur_bytes == 0) (λ _. Same-refl c)
      (λ _. replayed-Same c (drain send_frame faults c.spool c.wire))

connect-Same : (dial : Option Sink) (c : Client) → Same c (connect dial c)
unfolding connect
connect-Same none c = Same-refl c
connect-Same (some w) c = record { queue = refl; spilling = refl }

pub round-Same :
    (dial : Option Sink) (faults : FileFaults) (c : Client) → Same c (round dial faults c)
unfolding round
round-Same dial faults c =
    if_cases (Same c) c.closed (λ _. Same-refl c)
      (λ _. if_cases (Same c) d.connected (λ _. Same-trans up (replay-Same faults d)) (λ _. up))
  where
    d : Client
    d = if c.connected then c else connect dial c

    up : Same c d
    up = if_cases (Same c) c.connected (λ _. Same-refl c) (λ _. connect-Same dial c)

stop-Same : (c : Client) → Same c (stop c)
unfolding stop
stop-Same c =
    if_cases (Same c) c.closed (λ _. Same-refl c)
      (λ _. record { queue = b.queue; spilling = b.spilling })
  where
    b : Same (record c { closed = true }) (break_conn (record c { closed = true }))
    b = break_conn-Same (record c { closed = true })

-- What a `Send` does to the two: it appends to the queue and may set the flag.
pub record Grows (c d : Client) : Type 0 where
  pub more : List (List ℕ)
  pub queue : d.queue ≡ c.queue ++ more
  pub spilling : c.spilling ≡ true → d.spilling ≡ true

Same-Grows : (c d : Client) → Same c d → Grows c d
Same-Grows c d h = record {
  more = [];
  queue = h.queue ∙ sym (append-nil c.queue);
  spilling = λ p. h.spilling ∙ p;
}

Grows-trans : (c d e : Client) → Grows c d → Grows d e → Grows c e
Grows-trans c d e a b = record {
  more = a.more ++ b.more;
  queue = b.queue ∙ ap (λ q. q ++ b.more) a.queue ∙ append_assoc c.queue a.more b.more;
  spilling = λ p. b.spilling (a.spilling p);
}

spooled_to-Same : (c : Client) (r : Option IpcError × Spool) → Same c (spooled_to c r).1
unfolding spooled_to
spooled_to-Same c (some e, s) = record { queue = refl; spilling = refl }
spooled_to-Same c (none, s) = record { queue = refl; spilling = refl }

enqueue-Grows : (body : List ℕ) (c : Client) → Grows c (enqueue body c).1
unfolding enqueue
enqueue-Grows body c =
    if_cases (λ (r : Option IpcError × Client). Grows c r.1) c.spilling
      (λ _. Same-Grows _ _ (spooled_to-Same c (append body c.spool)))
      λ p.
        if_cases (λ (r : Option IpcError × Client). Grows c r.1) (ltb (length c.queue) c.queue_size)
          (λ _. record { more = body ∷ []; queue = refl; spilling = λ q. q })
          λ _.
            let s = spooled_to-Same (record c { spilling = true }) (append body c.spool) in
            record {
              more = [];
              queue = s.queue ∙ sym (append-nil c.queue);
              spilling = λ _. s.spilling;
            }

module _ {M : Type 0} (marshal : M → Option (List ℕ)) where
  send-Grows : (m : Option M) (c : Client) → Grows c (send marshal m c).1
  unfolding send
  send-Grows m c =
      if_cases (λ (r : Option IpcError × Client). Grows c r.1) c.closed
        (λ _. Same-Grows _ _ (Same-refl c)) (λ _. go m)
    where
      marshalled : (b : Option (List ℕ)) → Grows c (enqueue_marshalled b c).1
      marshalled none = Same-Grows _ _ (Same-refl c)
      marshalled (some body) = unfold enqueue_marshalled in enqueue-Grows body c

      go : (m : Option M) → Grows c (send_message marshal m c).1
      go none = Same-Grows _ _ (Same-refl c)
      go (some m) = marshalled (marshal m)

  Step-Grows : {c d : Client} → Step marshal c d → Grows c d
  Step-Grows (sends m c) = send-Grows m c
  Step-Grows (drains dial faults c) = Same-Grows _ _ (round-Same dial faults c)
  Step-Grows (breaks c) = Same-Grows _ _ (break_conn-Same c)
  Step-Grows (stops c) = Same-Grows _ _ (stop-Same c)

  -- Whatever the client, its callers and the other end do, a message that is in the queue stays
  -- there, in its place; and once the client spills, it spills for ever.
  pub Reach-Grows : {c d : Client} → Reach marshal c d → Grows c d
  Reach-Grows {c} here = Same-Grows c c (Same-refl c)
  Reach-Grows {c} (next {d = d} {e = e} r s) = Grows-trans c d e (Reach-Grows r) (Step-Grows s)
