-- ===== src/Tests/Adapter.antt =====
-- The adapters of pkg/adapter on small feeds.
use spark_trade_mft_raw_data.Prelude.{
  ℕ, String, Bool, true, false, Option, none, some, List, [], ◌∷◌, ◌++◌, map, arith, ◌≡◌, refl,
}
use spark_trade_mft_raw_data.Prelude.Int.{pos}
use spark_trade_mft_raw_data.Pipeline.{RawMessage}
use spark_trade_mft_raw_data.Adapter.{
  Adapter, new_adapter, add_error, keep_ten, inc_int32, backoff_at,
}
use spark_trade_mft_raw_data.Adapter.Loop.{
  Attempt, Event, turn, elsewhere, Feed, reconnect, feed_run,
}
use spark_trade_mft_raw_data.Adapter.Loop.Counting.{Counted, feed_run-Counted}
use spark_trade_mft_raw_data.Adapter.Loop.Ending.{Silent}
use spark_trade_mft_raw_data.Adapter.Loop.Backoff.{Scheduled, reconnect-Scheduled}
use spark_trade_mft_raw_data.Adapter.Loop.Calm.{calm, calm_turns, feed_on}
use spark_trade_mft_raw_data.Adapter.Ib.{
  TcpConn, Dialled, refused, accepted, IbOp, stops, new_ib, ib_source,
}
use spark_trade_mft_raw_data.Adapter.Ib.Stream.{
  wire, feed_run-wire, ib_source-LeavesCount, ib_source-LeavesBackoff,
}
use spark_trade_mft_raw_data.Adapter.Binance.{
  WsFrame, text, not_text, WsConn, JsonValue, null, not_null, BinanceOp, WsDialled, binance_source,
  rotate_session, is_ack,
}
use spark_trade_mft_raw_data.Adapter.Binance as Binance
use spark_trade_mft_raw_data.Adapter.Binance.Delivery.{messages, feed_run-messages}
use spark_trade_mft_raw_data.Adapter.Binance.Feeding.{rotate_session-Silent}
use spark_trade_mft_raw_data.Adapter.Mt5.{
  again, failed, received, no_connect, subscribed, Mt5, new_mt5, Mt5Event, round, mt5_run,
}
use spark_trade_mft_raw_data.Adapter.Mt5.Numbers.{Numbered, mt5_run-Numbered}
use spark_trade_mft_raw_data.Adapter.Mt5.Reconnects.{Within, mt5_run-Within}

abbrev no_conn : TcpConn
no_conn = record { incoming = []; writable = 0; sent = [] }

-- three reconnects with the backoffs 1 and 2
abbrev ib_adapter : Adapter TcpConn
ib_adapter = new_ib ("AAPL" ∷ []) (pos 3) (pos 1 ∷ pos 2 ∷ [])

abbrev all_refused : ℕ → Attempt Dialled
all_refused _ = record { gone = false; dial = refused }

-- two messages, the second of which the output does not take, and the end of the stream
abbrev ib_feed : Feed TcpConn
ib_feed =
    feed_on (record no_conn { incoming = 0 ∷ 0 ∷ 0 ∷ 1 ∷ 7 ∷ 0 ∷ 0 ∷ 0 ∷ 2 ∷ 8 ∷ 9 ∷ [] })
      (record ib_adapter { connected = true })

abbrev ib_events : List (Event Dialled IbOp)
ib_events =
    turn (calm (pos 10) all_refused)
    ∷ turn (record (calm (pos 11) all_refused) { takes = false })
    ∷ turn (calm (pos 12) all_refused)
    ∷ elsewhere stops
    ∷ turn (calm (pos 13) all_refused)
    ∷ []

feed_run-Counted_example : Counted "IB" 0 (feed_run (ib_source (pos 1)) ib_events ib_feed)
feed_run-Counted_example =
    feed_run-Counted (ib_source (pos 1)) (ib_source-LeavesCount (pos 1)) ib_events ib_feed
      (omega arith)

abbrev ib_messages : List (List ℕ)
ib_messages = (7 ∷ []) ∷ [] ∷ (8 ∷ 9 ∷ []) ∷ []

feed_run-wire_example :
    map
      (λ (m : RawMessage). m.payload)
      (feed_run
        (ib_source (pos 1))
        (calm_turns (λ n. pos n) all_refused 3)
        (feed_on (record no_conn { incoming = wire ib_messages ++ 0 ∷ 0 ∷ [] }) ib_adapter)).0
    ≡ ib_messages
feed_run-wire_example =
    feed_run-wire (pos 1) (λ n. pos n) all_refused ib_messages no_conn ib_adapter (0 ∷ 0 ∷ [])
      (omega arith, (omega arith, (omega arith, tt)))

reconnect-waits :
    (reconnect (ib_source (pos 1)) all_refused ib_adapter).waits ≡ pos 1 ∷ pos 2 ∷ pos 2 ∷ []
unfolding reconnect spark_trade_mft_raw_data.Adapter.Ib.connect
reconnect-waits = refl

reconnect-Scheduled_example :
    Scheduled (pos 1 ∷ pos 2 ∷ []) 3 (reconnect (ib_source (pos 1)) all_refused ib_adapter)
reconnect-Scheduled_example =
    reconnect-Scheduled (ib_source (pos 1)) (ib_source-LeavesBackoff (pos 1)) all_refused ib_adapter

-- an object whose `result` is null, and no other
abbrev unmarshal_empty : List ℕ → Option (String → Option JsonValue)
unmarshal_empty [] = some λ _. some null
unmarshal_empty (_ ∷ _) = none

abbrev no_socket : WsConn
no_socket = record { incoming = []; writable = 0; subscribed = []; pings = 0 }

abbrev binance_adapter : Adapter WsConn
binance_adapter = new_adapter ("btcusdt" ∷ []) (pos 1) (pos 1 ∷ [])

abbrev some_frames : List WsFrame
some_frames = text [] ∷ text (1 ∷ []) ∷ not_text ∷ text (2 ∷ []) ∷ []

abbrev not_dialled : ℕ → Attempt WsDialled
not_dialled _ = record { gone = false; dial = Binance.refused }

feed_run-messages_example :
    map
      (λ (m : RawMessage). m.payload)
      (feed_run
        (binance_source unmarshal_empty)
        (calm_turns (λ n. pos n) not_dialled 4)
        (feed_on (record no_socket { incoming = some_frames }) binance_adapter)).0
    ≡ (1 ∷ []) ∷ (2 ∷ []) ∷ []
unfolding messages is_ack
feed_run-messages_example =
    feed_run-messages unmarshal_empty (λ n. pos n) not_dialled some_frames no_socket binance_adapter

-- the rotation dials a web socket with a message, which is not delivered
rotate_session-Silent_example : Silent (
    feed_run (binance_source unmarshal_empty) (calm_turns (λ n. pos n) not_dialled 2) (record {
      going = true;
      adapter = rotate_session (Binance.accepted (text (1 ∷ []) ∷ []) 1) binance_adapter;
    }))
rotate_session-Silent_example =
    rotate_session-Silent unmarshal_empty (Binance.accepted (text (1 ∷ []) ∷ []) 1)
      (calm_turns (λ n. pos n) not_dialled 2) binance_adapter true

abbrev not_empty : List ℕ → Bool
not_empty [] = false
not_empty (_ ∷ _) = true

abbrev mt5_rounds : List Mt5Event
mt5_rounds =
    round (record {
      ctx_done = false;
      now = pos 1;
      dial = subscribed (received (1 ∷ []) ∷ received [] ∷ again ∷ received (2 ∷ []) ∷ failed ∷ []);
      takes = true;
    })
    ∷ round (record { ctx_done = false; now = pos 2; dial = no_connect; takes = true })
    ∷ round (record { ctx_done = false; now = pos 3; dial = no_connect; takes = true })
    ∷ round (record { ctx_done = false; now = pos 4; dial = no_connect; takes = true })
    ∷ round (record { ctx_done = false; now = pos 5; dial = no_connect; takes = false })
    ∷ round (record { ctx_done = false; now = pos 6; dial = no_connect; takes = true })
    ∷ round (record { ctx_done = false; now = pos 7; dial = no_connect; takes = true })
    ∷ []

-- two reconnects are allowed
abbrev mt5 : Mt5
mt5 = new_mt5 (pos 2) (pos 1 ∷ pos 2 ∷ [])

mt5_run-Numbered_example :
    let r = mt5_run not_empty mt5_rounds true mt5 in
    Numbered not_empty 0 r.mt5.adapter.messages_recv r.output
mt5_run-Numbered_example = mt5_run-Numbered not_empty mt5_rounds true mt5 (omega arith)

mt5_run-Within_example :
    let r = mt5_run not_empty mt5_rounds true mt5 in Within 2 0 7 r.waits r.mt5.adapter
mt5_run-Within_example =
    mt5_run-Within not_empty 2 (omega arith) mt5_rounds 0 true mt5 (omega arith)
      (record { count = refl; attempts = refl })
