-- ===== src/Ipc/Client/Delivery.antt =====
-- What a spilling client puts into its spool, and a round of the drain loop on the wire.
use spark_trade_mft_raw_data.Prelude.{
  ℕ, suc, ◌+◌, ◌<◌, ◌-◌, ◌≤◌, ◌≡◌, ◌≢◌, ap, sym, ◌∙◌, true, false, Option, none, some, List, [],
  ◌∷◌, append-nil, arith, ◌==◌, if_cases, if◌then◌else◌, length, length-append, All,
}
use spark_trade_mft_raw_data.Ipc.{Sink}
use spark_trade_mft_raw_data.Ipc.Frame.RoundTrip.{
  frame, put, put-put, write_frame-frame, length-put_uint32,
}
use spark_trade_mft_raw_data.Prelude.Word.{put_uint32}
use spark_trade_mft_raw_data.Ipc.Spool.{rec_header, append, drained, no_faults, send_all, drain}
use spark_trade_mft_raw_data.Ipc.Spool.Records.{IsBody, file_of}
use spark_trade_mft_raw_data.Ipc.Spool.Fifo.{Holds, emptied, append-put, drain-Holds}
use spark_trade_mft_raw_data.Ipc.Client.{
  Client, send, send_message, enqueue_marshalled, enqueue, spooled_to, send_frame, write_to,
  wrote_frame, replay, replayed, round,
}

-- A spilling client appends the body of a message to its spool, if it has room there.
pub send-spilled :
    {M : Type 0} (marshal : M → Option (List ℕ)) (m : M) (body : List ℕ) (c : Client)
    → c.closed ≡ false
    → c.spilling ≡ true
    → marshal m ≡ some body
    → length body < 0x1_0000_0000
    → c.spool.cur_bytes + (rec_header + length body) ≤ c.spool.max_bytes
    → rec_header + length body ≤ c.spool.file.budget
    → send marshal (some m) c ≡ (
      none,
      record c {
        spool = record c.spool {
          file = put (frame body) c.spool.file;
          cur_bytes = c.spool.cur_bytes + (rec_header + length body);
        };
        spooled = c.spooled + 1;
      },
    )
unfolding send send_message enqueue_marshalled enqueue spooled_to
send-spilled marshal m body c open_ spilling e small cap room =
    let all : send marshal (some m) c ≡ spooled_to c (append body c.spool) = ground arith in
    all ∙ ap (spooled_to c) (append-put body c.spool small cap room)

send_frame-put :
    (body : List ℕ) (w : Sink) (sent : ℕ)
    → IsBody body
    → length (frame body) ≤ w.budget
    → send_frame body (record { conn = some w; sent = sent })
      ≡ (none, record { conn = some (put (frame body) w); sent = sent + 1 })
unfolding send_frame write_to wrote_frame
send_frame-put body w sent b h = rw (
    write_frame-frame body w b.1 (
      omega
        (arith, length-append (put_uint32 (length body)) body, length-put_uint32 (length body))))

-- With room for all of them, every record is sent, one frame behind the other.
send_all-put :
    (bodies : List (List ℕ)) (w : Sink) (sent n : ℕ)
    → All IsBody bodies
    → length (file_of bodies) ≤ w.budget
    → send_all send_frame bodies (record { conn = some w; sent = sent }) n ≡ (
      n + length bodies,
      none,
      record { conn = some (put (file_of bodies) w); sent = sent + length bodies },
    )
unfolding send_all
send_all-put [] w sent n h k = λ i. (
  none_more n i,
  none,
  record {
    conn = some (record { written = sym (append-nil w.written) i; budget = all i });
    sent = none_more sent i;
  },
)
  where
    none_more : (m : ℕ) → m ≡ m + 0
    none_more m = omega arith

    all : w.budget ≡ w.budget - 0
    all = omega arith
send_all-put (body ∷ bodies) w sent n (b, h) k =
    rw (send_frame-put body w sent b (omega (arith, length-append (frame body) (file_of bodies)))) (
      send_all-put bodies (put (frame body) w) (sent + 1) (n + 1) h
        (omega (arith, length-append (frame body) (file_of bodies)))
      ∙ λ i. (
        one_more n i,
        none,
        record { conn = some (put-put (frame body) (file_of bodies) w i); sent = one_more sent i },
      ))
  where
    one_more : (m : ℕ) → m + 1 + length bodies ≡ m + suc (length bodies)
    one_more m = omega arith

module _ (bodies : List (List ℕ)) (c : Client) (w : Sink) (on : c.wire.conn ≡ some w)
    (h : Holds bodies c.spool) (room : length (file_of bodies) ≤ w.budget) where
  drain-put : drain send_frame no_faults c.spool c.wire ≡ (
    drained (0 + length bodies) none,
    emptied c.spool,
    record { conn = some (put (file_of bodies) w); sent = c.wire.sent + length bodies },
  )
  drain-put =
      ap (drain send_frame no_faults c.spool) wire
      ∙ drain-Holds send_frame bodies c.spool _ h
      ∙ ap (λ r. (drained r.0 r.1, (elim r.1 [ none ↦ emptied c.spool | some _ ↦ c.spool ]), r.2))
          (send_all-put bodies w c.wire.sent 0 h.sendable room)
    where
      wire : c.wire ≡ record { conn = some w; sent = c.wire.sent }
      wire = λ i. record { conn = on i; sent = c.wire.sent }

  replay-put :
      c.spool.cur_bytes ≢ 0
      → replay no_faults c ≡ record c {
        spool = emptied c.spool;
        wire = record { conn = some (put (file_of bodies) w); sent = c.wire.sent + length bodies };
      }
  unfolding replay replayed
  replay-put more =
      if_cases
        (λ d. d ≡ record c {
          spool = emptied c.spool;
          wire = record {
            conn = some (put (file_of bodies) w);
            sent = c.wire.sent + length bodies;
          };
        })
        (c.spool.cur_bytes == 0) (λ p. absurd (more (ground arith)))
        (λ _. ap (replayed c) drain-put)

-- A connected client whose spool holds some records, over a connection that takes them all: the
-- round writes each record as one frame, in the order of the spool, counts them, and empties the
-- spool.
pub round_delivers :
    (bodies : List (List ℕ)) (dial : Option Sink) (c : Client) (w : Sink)
    → c.closed ≡ false
    → c.connected ≡ true
    → c.wire.conn ≡ some w
    → Holds bodies c.spool
    → c.spool.cur_bytes ≢ 0
    → length (file_of bodies) ≤ w.budget
    → round dial no_faults c ≡ record c {
      spool = emptied c.spool;
      wire = record { conn = some (put (file_of bodies) w); sent = c.wire.sent + length bodies };
    }
unfolding round
round_delivers bodies dial c w open_ up on h more room =
    if_cases Goal c.closed (λ p. cc)
      λ _.
        if_cases (λ d. Goal (if d.connected then replay no_faults d else d)) c.connected
          (λ _. if_cases Goal c.connected (λ _. replay-put bodies c w on h room more) (λ p. cc))
          (λ p. cc)
  where
    Goal : Client → Type 0
    Goal d = d ≡ record c {
      spool = emptied c.spool;
      wire = record { conn = some (put (file_of bodies) w); sent = c.wire.sent + length bodies };
    }
