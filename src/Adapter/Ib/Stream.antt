-- ===== src/Adapter/Ib/Stream.antt =====
-- What the receive loop of pkg/adapter/ib.go delivers of the bytes that come in, and what Connect
-- writes.
use spark_trade_mft_raw_data.Prelude.{
  ℕ, ◌≤◌, Bool, true, false, Option, none, some, List, [], ◌∷◌, ◌++◌, map, if_cases, arith,
  append_assoc, length, All, le→ltb_false, ◌≡◌, refl, sym, ap, ◌∙◌, subst,
}
use spark_trade_mft_raw_data.Prelude.Int.{ℤ}
use spark_trade_mft_raw_data.Prelude.Word.{inc_uint64, put_uint32}
use spark_trade_mft_raw_data.Pipeline.{RawMessage}
use spark_trade_mft_raw_data.Ipc.Frame.RoundTrip.{
  frame, read_header, header_size-put, read_full-append,
}
use spark_trade_mft_raw_data.Adapter.{Failure, Adapter, add_error}
use spark_trade_mft_raw_data.Adapter.Loop.{
  ReadResult, fails, skips, reads, Attempt, stop, after_read, deliver, loop_turn, feed_step,
  feed_run,
}
use spark_trade_mft_raw_data.Adapter.Loop.Counting.{HasReceived, LeavesCount}
use spark_trade_mft_raw_data.Adapter.Loop.Backoff.{HasBackoff, LeavesBackoff}
use spark_trade_mft_raw_data.Adapter.Loop.Calm.{calm, calm_turns, feed_on}
use spark_trade_mft_raw_data.Adapter.Ib.{
  TcpConn, Dialled, refused, accepted, read_message, after_message, safe_read, ib_source,
  max_message_size, connect, greeted, subscribed, read_conn, send_handshake, subscribe_symbols,
}

-- The bytes of messages, each behind its length
unfoldable pub wire : List (List ℕ) → List ℕ
wire [] = []
wire (p ∷ ps) = frame p ++ wire ps

read_message-frame :
    (p rest : List ℕ)
    → length p ≤ max_message_size
    → read_message (frame p ++ rest) ≡ (reads p, rest)
unfolding read_message
read_message-frame p rest h = rw (
  append_assoc (put_uint32 (length p)) p rest,
  read_message,
  read_header (length p) (p ++ rest),
  header_size-put (length p) (omega arith),
  le→ltb_false max_message_size (length p) h,
  read_full-append p rest,
)

module _ (client_id : ℤ) (clock : ℕ → ℤ) (rs : ℕ → Attempt Dialled) where
  -- Undisturbed, the loop delivers the messages that come in, each behind its length, in order and
  -- byte for byte, if each is at most 1 MiB long; what follows them is not read yet.
  pub feed_run-wire :
      (ps : List (List ℕ)) (c : TcpConn) (a : Adapter TcpConn) (rest : List ℕ)
      → All (λ p. length p ≤ max_message_size) ps
      → map
          (λ (m : RawMessage). m.payload)
          (feed_run
            (ib_source client_id)
            (calm_turns clock rs (length ps))
            (feed_on (record c { incoming = wire ps ++ rest }) a)).0
        ≡ ps
  unfolding feed_run feed_step loop_turn after_read safe_read read_conn after_message calm_turns
      wire deliver
  feed_run-wire [] c a rest h = refl
  feed_run-wire (p ∷ ps) c a rest (h, hs) =
      let d = record c { incoming = wire (p ∷ ps) ++ rest } in
      subst
        (λ r.
          (let s =
              after_read (ib_source client_id) (calm (clock (length ps)) rs)
                (after_message d r (feed_on d a).adapter) in
            map (λ (m : RawMessage). m.payload)
              (s.0 ++ (feed_run (ib_source client_id) (calm_turns clock rs (length ps)) s.1).0))
          ≡ p ∷ ps)
        (sym (
          ap read_message (append_assoc (frame p) (wire ps) rest)
          ∙ read_message-frame p (wire ps ++ rest) h))
        (ap (λ qs. p ∷ qs)
          (feed_run-wire ps c (record a { messages_recv = inc_uint64 a.messages_recv }) rest hs))

-- A property that the connection does not touch
abbrev IsAside : (Adapter TcpConn → Type 0) → Type 0
IsAside P =
    (c : Option TcpConn) (b : Bool) (a : Adapter TcpConn)
    → P a
    → P (record a { conn = c; connected = b })

module _ (P : Adapter TcpConn → Type 0) (aside : IsAside P) where
  greeted-IsAside : (r : Option Failure × TcpConn) (a : Adapter TcpConn) → P a → P (greeted r a).1
  unfolding greeted subscribed
  greeted-IsAside (some f, c) a h = aside none a.connected a h
  greeted-IsAside (none, c) a h = go (subscribe_symbols a.symbols c)
    where
      go : (r : Option Failure × TcpConn) → P (subscribed r a).1
      go (some f, d) = aside none false a h
      go (none, d) = aside (some d) true a h

  connect-IsAside :
      (client_id : ℤ) (d : Dialled) (a : Adapter TcpConn) → P a → P (connect client_id d a).1
  unfolding connect
  connect-IsAside client_id refused a h =
      if_cases (λ (r : Option Failure × Adapter TcpConn). P r.1) a.connected (λ _. h) (λ _. h)
  connect-IsAside client_id (accepted bytes writes) a h =
      if_cases (λ (r : Option Failure × Adapter TcpConn). P r.1) a.connected (λ _. h)
        (λ _.
          greeted-IsAside
            (send_handshake client_id (record { incoming = bytes; writable = writes; sent = [] })) a
            h)

read_conn-messages_recv :
    (c : Option TcpConn) (a : Adapter TcpConn) → (read_conn c a).1.messages_recv ≡ a.messages_recv
unfolding read_conn after_message
read_conn-messages_recv none a = refl
read_conn-messages_recv (some c) a = go (read_message c.incoming)
  where
    go : (r : ReadResult × List ℕ) → (after_message c r a).1.messages_recv ≡ a.messages_recv
    go (fails f, s) = refl
    go (skips, s) = refl
    go (reads p, s) = refl

pub ib_source-LeavesCount : (client_id : ℤ) → LeavesCount (ib_source client_id)
unfolding add_error safe_read stop
ib_source-LeavesCount client_id = record {
  kept = λ n. record {
    of_connect = λ d a p. connect-IsAside (HasReceived n) (λ _ _ _ h. h) client_id d a p;
    of_error = λ _ _ p. p;
    of_reconnect = λ _ _ p. p;
    of_running = λ _ p. p;
  };
  of_safe_read = λ a. read_conn-messages_recv a.conn a;
  of_other = λ _ _. refl;
}

pub ib_source-LeavesBackoff : (client_id : ℤ) → LeavesBackoff (ib_source client_id)
unfolding add_error
ib_source-LeavesBackoff client_id ss = record {
  of_connect = λ d a p. connect-IsAside (HasBackoff ss) (λ _ _ _ h. h) client_id d a p;
  of_error = λ _ _ p. p;
  of_reconnect = λ _ _ p. p;
  of_running = λ _ p. p;
}
