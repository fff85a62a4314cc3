-- ===== src/Adapter/Binance/Feeding.antt =====
-- The feed of pkg/adapter/binance.go: what is delivered, what is counted, and the session rotation.
use spark_trade_mft_raw_data.Prelude.{
  ℕ, zero, suc, String, Bool, true, false, Option, none, some, List, [], ◌∷◌, if_cases, ◌≡◌, refl,
}
use spark_trade_mft_raw_data.Adapter.{Failure, Adapter, add_error}
use spark_trade_mft_raw_data.Adapter.Loop.{Event, stop, feed_run}
use spark_trade_mft_raw_data.Adapter.Loop.Backoff.{HasBackoff, LeavesBackoff}
use spark_trade_mft_raw_data.Adapter.Loop.Counting.{HasReceived, LeavesCount}
use spark_trade_mft_raw_data.Adapter.Loop.Ending.{Silent, feed_run-Silent}
use spark_trade_mft_raw_data.Adapter.Binance.{
  WsFrame, WsConn, WsDialled, refused, accepted, BinanceOp, stops, beats, rotates, JsonValue,
  subscribed_conn, connect, ping, beat, heartbeat, rotate_session, binance_step, rotation_due,
  read_frames, read_conn, safe_read, binance_source,
}

-- A property that connections, errors and Stop do not touch
record IsAside (P : Adapter WsConn → Type 0) : Type 0 where
  of_conn :
      (c : Option WsConn) (b : Bool) (a : Adapter WsConn)
      → P a
      → P (record a { conn = c; connected = b })
  of_error : (f : Failure) (a : Adapter WsConn) → P a → P (add_error f a)
  of_stop : (a : Adapter WsConn) → P a → P (stop a)

module _ (P : Adapter WsConn → Type 0) (aside : IsAside P) where
  open aside use {of_conn, of_error, of_stop}

  subscribed_conn-IsAside :
      (r : Option Failure × WsConn) (a : Adapter WsConn) → P a → P (subscribed_conn r a).1
  unfolding subscribed_conn
  subscribed_conn-IsAside (none, c) a p = of_conn _ _ a p
  subscribed_conn-IsAside (some f, c) a p = of_conn _ _ a p

  connect-IsAside : (d : WsDialled) (a : Adapter WsConn) → P a → P (connect d a).1
  unfolding connect
  connect-IsAside refused a p =
      if_cases (λ (r : Option Failure × Adapter WsConn). P r.1) a.connected (λ _. p) (λ _. p)
  connect-IsAside (accepted frames writes) a p =
      if_cases (λ (r : Option Failure × Adapter WsConn). P r.1) a.connected (λ _. p)
        (λ _. subscribed_conn-IsAside _ a p)

  ping-IsAside : (n : ℕ) (c : WsConn) (a : Adapter WsConn) → P a → P (ping n c a)
  unfolding ping
  ping-IsAside zero c a p = of_conn _ false _ (of_error _ a p)
  ping-IsAside (suc n) c a p = of_conn _ _ a p

  beat-IsAside : (c : Option WsConn) (a : Adapter WsConn) → P a → P (beat c a)
  unfolding beat
  beat-IsAside none a p = p
  beat-IsAside (some c) a p = ping-IsAside c.writable c a p

  binance_step-IsAside : (x : BinanceOp) (a : Adapter WsConn) → P a → P (binance_step x a)
  unfolding binance_step heartbeat rotate_session
  binance_step-IsAside stops a p = of_stop a p
  binance_step-IsAside beats a p = if_cases P a.connected (λ _. beat-IsAside a.conn a p) (λ _. p)
  binance_step-IsAside (rotates d) a p = connect-IsAside d _ (of_stop _ (of_error _ a p))

module _ (unmarshal : List ℕ → Option (String → Option JsonValue)) where
  read_frames-IsAside :
      (P : Adapter WsConn → Type 0)
      → IsAside P
      → (c : WsConn) (fs : List WsFrame) (a : Adapter WsConn) → P a
      → P (read_frames unmarshal c fs a).1
  unfolding read_frames
  read_frames-IsAside P aside c [] a p = aside.of_conn _ false a p
  read_frames-IsAside P aside c (f ∷ fs) a p = aside.of_conn _ _ a p

  read_conn-IsAside :
      (P : Adapter WsConn → Type 0)
      → IsAside P
      → (c : Option WsConn) (a : Adapter WsConn) → P a
      → P (read_conn unmarshal c a).1
  unfolding read_conn read_frames
  read_conn-IsAside P aside none a p = aside.of_conn _ _ a p
  read_conn-IsAside P aside (some c) a p = read_frames-IsAside P aside c c.incoming a p

  HasReceived-IsAside : (n : ℕ) → IsAside (HasReceived n)
  unfolding add_error stop
  HasReceived-IsAside n = record {
    of_conn = λ _ _ _ p. p;
    of_error = λ _ _ p. p;
    of_stop = λ _ p. p;
  }

  pub binance_source-LeavesCount : LeavesCount (binance_source unmarshal)
  unfolding add_error safe_read
  binance_source-LeavesCount = record {
    kept = λ n. record {
      of_connect = λ d a p. connect-IsAside (HasReceived n) (HasReceived-IsAside n) d a p;
      of_error = λ _ _ p. p;
      of_reconnect = λ _ _ p. p;
      of_running = λ _ p. p;
    };
    of_safe_read = λ a.
        read_conn-IsAside (HasReceived a.messages_recv) (HasReceived-IsAside a.messages_recv) a.conn
          a refl;
    of_other = λ x a.
        binance_step-IsAside (HasReceived a.messages_recv) (HasReceived-IsAside a.messages_recv) x a
          refl;
  }

  pub binance_source-LeavesBackoff : LeavesBackoff (binance_source unmarshal)
  unfolding add_error stop
  binance_source-LeavesBackoff ss = record {
    of_connect = λ d a p.
        connect-IsAside (HasBackoff ss)
          (record { of_conn = λ _ _ _ h. h; of_error = λ _ _ h. h; of_stop = λ _ h. h }) d a p;
    of_error = λ _ _ p. p;
    of_reconnect = λ _ _ p. p;
    of_running = λ _ p. p;
  }

  abbrev IsCancelled : Adapter WsConn → Type 0
  IsCancelled a = a.cancelled ≡ true

  IsCancelled-IsAside : IsAside IsCancelled
  unfolding add_error stop
  IsCancelled-IsAside = record {
    of_conn = λ _ _ _ p. p;
    of_error = λ _ _ p. p;
    of_stop = λ _ _. refl;
  }

  -- After one tick of the session rotation, whatever the new dialling comes to, Binance delivers no
  -- message any more, whatever happens then, and its context stays cancelled. An iteration of the
  -- receive loop is one step, so that no message is in hand at the tick.
  pub rotate_session-Silent :
      (d : WsDialled) (es : List (Event WsDialled BinanceOp)) (a : Adapter WsConn) (going : Bool)
      → Silent (
          feed_run
            (binance_source unmarshal)
            es
            (record { going = going; adapter = rotate_session d a }))
  unfolding rotate_session stop
  rotate_session-Silent d es a going =
      feed_run-Silent (binance_source unmarshal)
        (binance_step-IsAside IsCancelled IsCancelled-IsAside) es
        (record { going = going; adapter = rotate_session d a })
        (connect-IsAside IsCancelled IsCancelled-IsAside d (stop (add_error rotation_due a)) refl)
