-- ===== src/Ipc/Client/Undelivered.antt =====
-- Messages that the queue has room for are accepted and never leave the process.
use spark_trade_mft_raw_data.Prelude.{
  ℕ, ◌+◌, ◌≤◌, ◌<◌, ◌≡◌, refl, ap, sym, ◌∙◌, true, false, lt→ltb, Option, none, some, List, [], ◌∷◌,
  ◌++◌, append_assoc, append-nil, arith, ◌==◌, if_cases, if◌then◌else◌, length, length-append, map,
}
use spark_trade_mft_raw_data.Ipc.{IpcError, Sink}
use spark_trade_mft_raw_data.Ipc.Spool.{FileFaults}
use spark_trade_mft_raw_data.Ipc.Client.{
  Client, enqueue, enqueue_marshalled, send, send_message, break_at, break_conn, replay, connect,
  round, flushed,
}
use spark_trade_mft_raw_data.Ipc.Client.Queue.{Same, break_conn-Same, Same-refl, Same-trans}

-- One thing that the goroutines do: a round of the drain loop with what its dial gives and which
-- operations of the file fail, or a break of the connection.
pub data Activity : Type 0 where
  drain_round : Option Sink → FileFaults → Activity
  conn_break : Activity

unfoldable pub act : Activity → Client → Client
act (drain_round dial faults) c = round dial faults c
act conn_break c = break_conn c

unfoldable pub run : List Activity → Client → Client
unfolding act
run [] c = c
run (a ∷ rest) c = run rest (act a c)

-- The first refusal ends a row of sends.
abbrev after :
    Option IpcError × Client → (Client → Option IpcError × Client) → Option IpcError × Client
after (some e, c) f = (some e, c)
after (none, c) f = f c

module _ {M : Type 0} (marshal : M → Option (List ℕ)) where
  -- A caller that sends messages until one is refused.
  unfoldable pub send_each : List M → Client → Option IpcError × Client
  send_each [] c = (none, c)
  send_each (m ∷ ms) c = after (send marshal (some m) c) (send_each ms)

  pub send-queued :
      (m : M) (body : List ℕ) (c : Client)
      → c.closed ≡ false
      → c.spilling ≡ false
      → length c.queue < c.queue_size
      → marshal m ≡ some body
      → send marshal (some m) c ≡ (none, record c { queue = c.queue ++ (body ∷ []) })
  unfolding send send_message enqueue_marshalled enqueue
  send-queued m body c open_ calm room e = ground (arith, lt→ltb (length c.queue) c.queue_size room)

  send_each-queued :
      (ms : List M) (bodies : List (List ℕ)) (c : Client)
      → c.closed ≡ false
      → c.spilling ≡ false
      → length c.queue + length bodies ≤ c.queue_size
      → map marshal ms ≡ map some bodies
      → send_each ms c ≡ (none, record c { queue = c.queue ++ bodies })
  unfolding send_each
  send_each-queued [] [] c a b h e = λ i. (none, record c { queue = sym (append-nil c.queue) i })
  send_each-queued [] (x ∷ bodies) c a b h e = cc
  send_each-queued (m ∷ ms) [] c a b h e = cc
  send_each-queued (m ∷ ms) (body ∷ bodies) c a b h e =
      let s = send-queued m body c a b (omega arith) (ground arith) in
      rw s (
        send_each-queued ms bodies (record c { queue = c.queue ++ (body ∷ []) }) a b
          (omega (arith, h, length-append c.queue (body ∷ []))) (ground arith)
        ∙ ap (λ q. (none, record c { queue = q })) (append_assoc c.queue (body ∷ []) bodies))

-- A client whose spool is empty: no round reads anything to send.
record Idle (c d : Client) : Type 0 where
  sent : d.wire.sent ≡ c.wire.sent
  empty : d.spool.cur_bytes ≡ c.spool.cur_bytes
  same : Same c d

break_conn-Idle : (c : Client) → Idle c (break_conn c)
unfolding break_conn
break_conn-Idle c = record {
  sent = (go c.wire.conn).0;
  empty = (go c.wire.conn).1;
  same = break_conn-Same c;
}
  where
    go :
        (w : Option Sink)
        → ((break_at w c).wire.sent ≡ c.wire.sent)
          × ((break_at w c).spool.cur_bytes ≡ c.spool.cur_bytes)
    go none = (refl, refl)
    go (some w) = (refl, refl)

connect-Idle : (dial : Option Sink) (c : Client) → Idle c (connect dial c)
unfolding connect
connect-Idle none c = record { sent = refl; empty = refl; same = Same-refl c }
connect-Idle (some w) c = record {
  sent = refl;
  empty = refl;
  same = record { queue = refl; spilling = refl };
}

replay-empty : (faults : FileFaults) (c : Client) → c.spool.cur_bytes ≡ 0 → replay faults c ≡ c
unfolding replay
replay-empty faults c e =
    if_cases (λ d. d ≡ c) (c.spool.cur_bytes == 0) (λ _. refl) (λ p. absurd (ground arith))

Idle-refl : (c : Client) → Idle c c
Idle-refl c = record { sent = refl; empty = refl; same = Same-refl c }

round-Idle :
    (dial : Option Sink) (faults : FileFaults) (c : Client)
    → c.spool.cur_bytes ≡ 0
    → Idle c (round dial faults c)
unfolding round
round-Idle dial faults c e =
    if_cases (Idle c) c.closed (λ _. Idle-refl c)
      (λ _.
        if_cases (Idle c) d.connected (λ _. rw (replay-empty faults d (up.empty ∙ e)) up) (λ _. up))
  where
    d : Client
    d = if c.connected then c else connect dial c

    up : Idle c d
    up = if_cases (Idle c) c.connected (λ _. Idle-refl c) (λ _. connect-Idle dial c)

act-Idle : (a : Activity) (c : Client) → c.spool.cur_bytes ≡ 0 → Idle c (act a c)
unfolding act
act-Idle (drain_round dial faults) c e = round-Idle dial faults c e
act-Idle conn_break c e = break_conn-Idle c

Idle-trans : (c d e : Client) → Idle c d → Idle d e → Idle c e
Idle-trans c d e a b = record {
  sent = b.sent ∙ a.sent;
  empty = b.empty ∙ a.empty;
  same = Same-trans a.same b.same;
}

run-Idle : (todo : List Activity) (c : Client) → c.spool.cur_bytes ≡ 0 → Idle c (run todo c)
unfolding run
run-Idle [] c e = Idle-refl c
run-Idle (a ∷ rest) c e =
    Idle-trans c _ _ (act-Idle a c e) (run-Idle rest (act a c) ((act-Idle a c e).empty ∙ e))

-- Take an open client with an empty spool that does not spill, and messages for which its queue
-- has room. Every `Send` returns nil and `Flush` is satisfied at once. But whatever rounds and
-- breaks follow, with whatever dials, all the messages are still in the queue and the count of
-- frames sent is what it was.
pub queued_undelivered :
    {M : Type 0} (marshal : M → Option (List ℕ)) (ms : List M) (bodies : List (List ℕ)) (c : Client)
    (todo : List Activity)
    → c.closed ≡ false
    → c.spilling ≡ false
    → c.spool.cur_bytes ≡ 0
    → length c.queue + length bodies ≤ c.queue_size
    → map marshal ms ≡ map some bodies
    → let (refused, d) = send_each marshal ms c in
      (refused ≡ none)
      × (flushed d ≡ true)
      × ((run todo d).queue ≡ c.queue ++ bodies)
      × ((run todo d).wire.sent ≡ c.wire.sent)
unfolding flushed
queued_undelivered marshal ms bodies c todo a b e h m =
    rw (send_each-queued marshal ms bodies c a b h m)
      (refl, ground arith, idle.same.queue, idle.sent)
  where
    idle :
        Idle
          (record c { queue = c.queue ++ bodies })
          (run todo (record c { queue = c.queue ++ bodies }))
    idle = run-Idle todo (record c { queue = c.queue ++ bodies }) e
