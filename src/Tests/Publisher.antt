-- ===== src/Tests/Publisher.antt =====
-- The publisher of pkg/publisher/zmq.go on a few calls.
use spark_trade_mft_raw_data.Prelude.{
  ℕ, String, true, false, Option, none, some, List, [], ◌∷◌, arith, ◌≡◌, refl,
}
use spark_trade_mft_raw_data.Prelude.Int.{pos}
use spark_trade_mft_raw_data.Event.{CanonicalEvent}
use spark_trade_mft_raw_data.Publisher.{
  new_publisher, not_running, send_error, Parts, PublisherOp, starts, stops, publishes, ticks,
  publisher_run, publisher_step,
}
use spark_trade_mft_raw_data.Publisher.Counts.{Tallied, publisher_run-Tallied}

abbrev empty_event : CanonicalEvent ℕ ℕ
empty_event = record {
  event_id = "";
  source = "";
  canonical_symbol = "";
  exchange_timestamp = pos 0;
  local_hw_timestamp = pos 0;
  event_type = "";
  price = 0;
  size = 0;
  side = "";
  levels = [];
  raw_payload = [];
  raw_format = "";
  forex_metadata = none;
  futures_metadata = none;
  crypto_metadata = none;
  equity_metadata = none;
}

abbrev payload_only : CanonicalEvent ℕ ℕ → Option (List ℕ)
payload_only e = some e.raw_payload

-- a call before Start, an event without a symbol, one that the socket does not take, a heartbeat
abbrev calls : List (PublisherOp ℕ ℕ)
calls =
    publishes true empty_event
    ∷ starts none
    ∷ publishes true (record empty_event { raw_payload = 1 ∷ [] })
    ∷ publishes false empty_event
    ∷ ticks true (pos 7) (pos 7) (pos 7)
    ∷ stops
    ∷ ticks true (pos 8) (pos 8) (pos 8)
    ∷ []

abbrev topics : List Parts → List String
topics [] = []
topics (m ∷ ms) = m.topic ∷ topics ms

run-topics :
    topics (publisher_run payload_only empty_event (λ _. "") calls (new_publisher (pos 5))).0
    ≡ "UNKNOWN" ∷ "HEARTBEAT" ∷ []
unfolding publisher_run publisher_step
run-topics = refl

run-errors :
    (publisher_run payload_only empty_event (λ _. "") calls (new_publisher (pos 5))).1
    ≡ not_running ∷ send_error ∷ []
unfolding publisher_run publisher_step
run-errors = refl

publisher_run-Tallied_example :
    let r = publisher_run payload_only empty_event (λ _. "") calls (new_publisher (pos 5)) in
    Tallied payload_only (new_publisher (pos 5)) r.2 r.0 r.1
publisher_run-Tallied_example =
    publisher_run-Tallied payload_only empty_event (λ _. "") calls (new_publisher (pos 5))
      (omega arith, omega arith)
