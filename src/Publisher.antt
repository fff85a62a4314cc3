-- ===== src/Publisher.antt =====
-- pkg/publisher/zmq.go: events on a ZeroMQ PUB socket. The socket, json.Marshal and the formatting of
-- numbers are parameters; the goroutines' steps are atomic.
pub mod Counts
use Prim.Native.String.{◌++◌ as str_append}
use text.Mathlib.Text.{◌==◌ as str_eq}
use spark_trade_mft_raw_data.Prelude.{
  ℕ, ◌+◌, ◌%◌, String, Bool, true, false, ◌&&◌, not, Option, none, some, List, [], ◌∷◌, ◌++◌, ltb,
  ◌==◌, if◌then◌else◌,
}
use spark_trade_mft_raw_data.Prelude.Int.{ℤ, pos, ltz}
use spark_trade_mft_raw_data.Prelude.Word.{inc_uint64}
use spark_trade_mft_raw_data.Event.{CanonicalEvent}

-- `marshal_error` and `send_error` are also kept in the list of errors
pub data PublishError : Type 0 where
  not_running marshal_error not_initialized send_error : PublishError

pub data StartError : Type 0 where
  no_socket bind_failed : StartError

-- `bound` is whether there is a socket, and `ticking` whether the heartbeat's goroutine runs.
pub record Publisher : Type 0 where
  pub bound : Bool
  pub running : Bool
  pub published : ℕ
  pub dropped : ℕ
  pub heartbeat_interval : ℤ
  pub ticking : Bool
  pub cancelled : Bool

-- NewZMQPublisher
abbrev pub new_publisher : ℤ → Publisher
new_publisher heartbeat_interval = record {
  bound = false;
  running = false;
  published = 0;
  dropped = 0;
  heartbeat_interval = heartbeat_interval;
  ticking = false;
  cancelled = false;
}

-- startHeartbeat: NewTicker panics on an interval that is not positive, and a cancelled context ends the
-- goroutine.
unfoldable pub start_heartbeat : Publisher → Publisher
start_heartbeat p = record p { ticking = ltz (pos 0) p.heartbeat_interval && not p.cancelled }

-- Start, given how the making of the socket fails if it does; the panic of NewTicker is recovered, so
-- that there is no error
unfoldable pub start : Option StartError → Publisher → Option StartError × Publisher
unfolding start_heartbeat
start (some e) p = (some e, p)
start none p = (none, start_heartbeat (record p { bound = true; running = true }))

-- Stop
unfoldable pub stop : Publisher → Publisher
stop p = record p { running = false; ticking = false; cancelled = true; bound = false }

-- The parts of a message
pub record Parts : Type 0 where
  pub topic : String
  pub body : List ℕ

-- what a call of Publish has sent, its error, and the publisher
pub record Published : Type 0 where
  pub sent : List Parts
  pub error : Option PublishError
  pub publisher : Publisher

abbrev lost : PublishError → Publisher → Published
lost e p = record { sent = []; error = some e; publisher = p }

-- sendWithTimeout on a socket that takes the message or does not: an error or what is sent
unfoldable pub send_with_timeout :
    Bool → String → List ℕ → Publisher → Option PublishError × List Parts
send_with_timeout takes topic body p =
    if not p.bound
    then (some not_initialized, [])
    else if takes
    then (none, record { topic = topic; body = body } ∷ [])
    else (some send_error, [])

-- what Publish does with the result of sendWithTimeout
unfoldable pub count_send : Option PublishError × List Parts → Publisher → Published
count_send (some e, sent) p = record {
  sent = sent;
  error = some e;
  publisher = record p { dropped = inc_uint64 p.dropped };
}
count_send (none, sent) p = record {
  sent = sent;
  error = none;
  publisher = record p { published = inc_uint64 p.published };
}

-- the topic of an event
unfoldable pub topic_of : {F J : Type 0} → CanonicalEvent F J → String
topic_of e = if str_eq e.canonical_symbol "" then "UNKNOWN" else e.canonical_symbol

-- the event of publishHeartbeat; `empty` is CanonicalEvent{}, `show` formats a number, and the clock
-- is read three times
unfoldable pub heartbeat_event :
    {F J : Type 0} → CanonicalEvent F J → (ℤ → String) → ℤ → ℤ → ℤ → CanonicalEvent F J
heartbeat_event empty show t u v = record empty {
  event_id = str_append "heartbeat_" (show t);
  source = "SYSTEM";
  canonical_symbol = "HEARTBEAT";
  exchange_timestamp = u;
  local_hw_timestamp = v;
  event_type = "HEARTBEAT";
  raw_payload = 104 ∷ 101 ∷ 97 ∷ 114 ∷ 116 ∷ 98 ∷ 101 ∷ 97 ∷ 116 ∷ [];
}

module _ {F J : Type 0} (marshal : CanonicalEvent F J → Option (List ℕ)) where
  -- Publish behind its guard, with the marshalled event
  unfoldable pub send_event : Bool → String → Option (List ℕ) → Publisher → Published
  unfolding count_send send_with_timeout
  send_event takes topic none p = lost marshal_error (record p { dropped = inc_uint64 p.dropped })
  send_event takes topic (some body) p = count_send (send_with_timeout takes topic body p) p

  -- Publish, on a socket that takes the message or does not
  unfoldable pub publish : Bool → CanonicalEvent F J → Publisher → Published
  unfolding send_event topic_of
  publish takes e p =
      if not p.running then lost not_running p else send_event takes (topic_of e) (marshal e) p

-- Stats with the age of the last message if there is one, in nanoseconds
pub record PublisherStats : Type 0 where
  pub running : Bool
  pub published : ℕ
  pub dropped : ℕ
  pub age : Option ℤ

-- IsHealthy; `above` is whether the quotient of two counts, as floats, is above 0.01
unfoldable pub is_healthy : (ℕ → ℕ → Bool) → PublisherStats → Bool
is_healthy above s =
    if not s.running
    then false
    else if s.published == 0
    then false
    else (let total = (s.published + s.dropped) % 0x1_0000_0000_0000_0000 in
        if ltb 0 total && above s.dropped total
        then false
        else (elim s.age [ none ↦ true | some d ↦ not (ltz (pos 10_000_000_000) d) ]))

-- what the goroutines and the callers do
pub data PublisherOp (F J : Type 0) : Type 0 where
  starts : Option StartError → PublisherOp F J
  stops : PublisherOp F J
  publishes : Bool → CanonicalEvent F J → PublisherOp F J
  ticks : Bool → ℤ → ℤ → ℤ → PublisherOp F J

module _ {F J : Type 0} (marshal : CanonicalEvent F J → Option (List ℕ))
    (empty : CanonicalEvent F J) (show : ℤ → String) where
  -- a tick of the heartbeat publishes its event
  unfoldable pub publisher_step : PublisherOp F J → Publisher → Published
  unfolding start stop publish heartbeat_event
  publisher_step (starts b) p = record { sent = []; error = none; publisher = (start b p).1 }
  publisher_step stops p = record { sent = []; error = none; publisher = stop p }
  publisher_step (publishes takes e) p = publish marshal takes e p
  publisher_step (ticks takes t u v) p =
      if p.ticking
      then publish marshal takes (heartbeat_event empty show t u v) p
      else record { sent = []; error = none; publisher = p }

  -- what a run sends and the publisher after it, with the errors of its steps
  unfoldable pub publisher_run :
      List (PublisherOp F J) → Publisher → List Parts × List PublishError × Publisher
  unfolding publisher_step
  publisher_run [] p = ([], [], p)
  publisher_run (o ∷ os) p =
      let s = publisher_step o p in
      let (sent, errors, q) = publisher_run os s.publisher in
      (s.sent ++ sent, (elim s.error [ none ↦ [] | some e ↦ e ∷ [] ]) ++ errors, q)
