-- ===== src/Adapter/Binance/Delivery.antt =====
-- What the receive loop of pkg/adapter/binance.go delivers of the frames that come in.
use spark_trade_mft_raw_data.Prelude.{
  ℕ, String, Bool, true, false, Option, List, [], ◌∷◌, ◌++◌, map, if◌then◌else◌, length, ◌≡◌, refl,
  ap,
}
use spark_trade_mft_raw_data.Prelude.Int.{ℤ}
use spark_trade_mft_raw_data.Prelude.Word.{inc_uint64}
use spark_trade_mft_raw_data.Pipeline.{RawMessage}
use spark_trade_mft_raw_data.Adapter.{Adapter}
use spark_trade_mft_raw_data.Adapter.Loop.{
  skips, reads, Attempt, after_read, deliver, loop_turn, feed_step, feed_run,
}
use spark_trade_mft_raw_data.Adapter.Loop.Calm.{calm, calm_turns, feed_on}
use spark_trade_mft_raw_data.Adapter.Binance.{
  WsFrame, text, not_text, WsConn, WsDialled, JsonValue, is_ack, read_text, read_frames, read_conn,
  safe_read, binance_source,
}

module _ (unmarshal : List ℕ → Option (String → Option JsonValue)) where
  -- the texts that are no acknowledgements
  unfoldable pub messages : List WsFrame → List (List ℕ)
  messages [] = []
  messages (not_text ∷ fs) = messages fs
  messages (text p ∷ fs) = let rest = messages fs in if is_ack unmarshal p then rest else p ∷ rest

  module _ (clock : ℕ → ℤ) (rs : ℕ → Attempt WsDialled) where
    payloads : List WsFrame → WsConn → Adapter WsConn → List (List ℕ)
    payloads fs c a =
        map (λ (m : RawMessage). m.payload)
          (feed_run (binance_source unmarshal) (calm_turns clock rs (length fs))
            (feed_on (record c { incoming = fs }) a)).0

    -- a text, by whether it is an acknowledgement
    after_text :
        (b : Bool) (p : List ℕ) (fs : List WsFrame) (c : WsConn) (a : Adapter WsConn)
        → ((a : Adapter WsConn) → payloads fs c a ≡ messages fs)
        → let s =
            after_read
              (binance_source unmarshal)
              (calm (clock (length fs)) rs)
              (if b then skips else reads p, (feed_on (record c { incoming = fs }) a).adapter) in
          map
            (λ (m : RawMessage). m.payload)
            (s.0 ++ (feed_run (binance_source unmarshal) (calm_turns clock rs (length fs)) s.1).0)
          ≡ (if b then messages fs else p ∷ messages fs)
    unfolding after_read deliver payloads
    after_text true p fs c a h = h a
    after_text false p fs c a h =
        ap (λ ps. p ∷ ps) (h (record a { messages_recv = inc_uint64 a.messages_recv }))

    -- Undisturbed, the loop delivers the payload of every text frame that is no acknowledgement,
    -- unchanged and in order, and nothing for the other frames.
    pub feed_run-messages :
        (fs : List WsFrame) (c : WsConn) (a : Adapter WsConn)
        → map
            (λ (m : RawMessage). m.payload)
            (feed_run
              (binance_source unmarshal)
              (calm_turns clock rs (length fs))
              (feed_on (record c { incoming = fs }) a)).0
          ≡ messages fs
    unfolding feed_run feed_step loop_turn after_read safe_read read_conn read_frames read_text
        calm_turns messages payloads
    feed_run-messages [] c a = refl
    feed_run-messages (not_text ∷ fs) c a = feed_run-messages fs c a
    feed_run-messages (text p ∷ fs) c a =
        after_text (is_ack unmarshal p) p fs c a (feed_run-messages fs c)
