-- ===== src/Adapter/Loop.antt =====
-- The receive loop of binance.go and ib.go of pkg/adapter, which are the same but for the name, the
-- connection and the reading. An iteration of the loop, and an operation of another goroutine,
-- are atomic. `C` is the type of the connection, `D` what becomes of dialling, and `X` the
-- operations of the other goroutines.
pub mod Laws
pub mod Calm
pub mod Ending
pub mod Counting
pub mod Backoff
use spark_trade_mft_raw_data.Prelude.{
  ℕ, zero, suc, String, Bool, true, false, ◌||◌, Option, none, some, List, [], ◌∷◌, ◌++◌,
  if◌then◌else◌,
}
use spark_trade_mft_raw_data.Prelude.Int.{ℤ}
use spark_trade_mft_raw_data.Prelude.Word.{inc_uint64}
use spark_trade_mft_raw_data.Pipeline.{RawMessage}
use spark_trade_mft_raw_data.Adapter.{
  Failure, plain, attempt_failed, Adapter, add_error, inc_int32, dec_uint64, rounds, backoff_at,
}

-- what safeRead returns: an error, neither error nor message, or a message's payload
pub data ReadResult : Type 0 where
  fails : Failure → ReadResult
  skips : ReadResult
  reads : List ℕ → ReadResult

pub record Source (C D X : Type 0) : Type 0 where
  pub name : String
  pub connect : D → Adapter C → Option Failure × Adapter C
  pub safe_read : Adapter C → ReadResult × Adapter C
  pub other : X → Adapter C → Adapter C

-- a round of reconnect: whether the context ends in the wait, and the dialling
pub record Attempt (D : Type 0) : Type 0 where
  pub gone : Bool
  pub dial : D

-- how reconnect ends, and the seconds that it has waited
pub record Reconnect (C : Type 0) : Type 0 where
  pub panicked : Bool
  pub waits : List ℤ
  pub adapter : Adapter C

-- an iteration of the loop: whether its context has ended, the clock, the rounds of reconnect if
-- there are any, and whether the output takes a message within a second
pub record Turn (D : Type 0) : Type 0 where
  pub ctx_done : Bool
  pub now : ℤ
  pub attempts : ℕ → Attempt D
  pub takes : Bool

pub data Event (D X : Type 0) : Type 0 where
  turn : Turn D → Event D X
  elsewhere : X → Event D X

-- the loop, and whether it is still going
pub record Feed (C : Type 0) : Type 0 where
  pub going : Bool
  pub adapter : Adapter C

-- Stop
unfoldable pub stop : {C : Type 0} → Adapter C → Adapter C
stop a = record a { running = false; connected = false; conn = none; cancelled = true }

-- Start, up to the goroutines: an error, or the adapter that they run on
unfoldable pub start : {C : Type 0} → Adapter C → Option Failure × Adapter C
start a =
    if a.running
    then (some (plain "adapter already running"), a)
    else (none, record a { running = true })

module _ {C D X : Type 0} (src : Source C D X) where
  open src use {name, connect, safe_read, other}

  -- what follows on Connect in round `k`; `rest` is the rounds behind it
  unfoldable pub after_dial :
      (Adapter C → Reconnect C) → ℕ → ℤ → Option Failure × Adapter C → Reconnect C
  unfolding add_error inc_int32
  after_dial rest k s (none, a) = record {
    panicked = false;
    waits = s ∷ [];
    adapter = record a { reconnect_count = inc_int32 a.reconnect_count };
  }
  after_dial rest k s (some f, a) =
      let r = rest (add_error (attempt_failed (suc k) f) a) in record r { waits = s ∷ r.waits }

  -- round `k` of reconnect with its backoff
  unfoldable pub try_round :
      (Adapter C → Reconnect C) → ℕ → Attempt D → Option ℤ → Adapter C → Reconnect C
  unfolding after_dial
  try_round rest k t none a = record { panicked = true; waits = []; adapter = a }
  try_round rest k t (some s) a =
      if t.gone
      then record { panicked = false; waits = s ∷ []; adapter = a }
      else after_dial rest k s (connect t.dial a)

  -- `n` more rounds of reconnect from round `k`
  unfoldable pub reconnect_from : ℕ → ℕ → (ℕ → Attempt D) → Adapter C → Reconnect C
  unfolding add_error backoff_at try_round
  reconnect_from zero k rs a = record {
    panicked = false;
    waits = [];
    adapter = add_error (plain "max reconnect attempts reached") a;
  }
  reconnect_from (suc n) k rs a =
      try_round (reconnect_from n (suc k) rs) k (rs k) (backoff_at a.backoff_seconds k) a

  unfoldable pub reconnect : (ℕ → Attempt D) → Adapter C → Reconnect C
  unfolding reconnect_from
  reconnect rs a = reconnect_from (rounds a.reconnect_attempts) 0 rs a

  -- the end of receiveLoop
  abbrev pub ended : Adapter C → Feed C
  ended a = record { going = false; adapter = record a { running = false } }

  -- what follows on an error of safeRead
  unfoldable pub after_error : (ℕ → Attempt D) → Adapter C → Feed C
  unfolding reconnect add_error
  after_error rs a =
      if a.connected
      then record { going = true; adapter = a }
      else (let r = reconnect rs a in
          if r.panicked
          then ended (add_error (plain "panic in receiveLoop: index out of range") r.adapter)
          else record { going = true; adapter = r.adapter })

  -- the sending of a message that has been read: it is counted first
  unfoldable pub deliver : Turn D → List ℕ → Adapter C → List RawMessage × Feed C
  unfolding add_error
  deliver t p a =
      let b = record a { messages_recv = inc_uint64 a.messages_recv } in
      if t.takes
      then (
        record { source = name; payload = p; received_at = t.now; sequence_num = 0 } ∷ [],
        record { going = true; adapter = b },
      )
      else (
        [],
        record {
          going = true;
          adapter =
              add_error (plain "output channel blocked")
                (record b { messages_recv = dec_uint64 b.messages_recv });
        },
      )

  -- what follows on the reading
  unfoldable pub after_read : Turn D → ReadResult × Adapter C → List RawMessage × Feed C
  unfolding after_error deliver add_error
  after_read t (fails f, a) = ([], after_error t.attempts (add_error f a))
  after_read t (skips, a) = ([], record { going = true; adapter = a })
  after_read t (reads p, a) = deliver t p a

  -- an iteration of receiveLoop: what it puts out, and the loop after it
  unfoldable pub loop_turn : Turn D → Adapter C → List RawMessage × Feed C
  unfolding after_read
  loop_turn t a = if t.ctx_done || a.cancelled then ([], ended a) else after_read t (safe_read a)

  unfoldable pub feed_step : Event D X → Feed C → List RawMessage × Feed C
  unfolding loop_turn
  feed_step (turn t) f = if f.going then loop_turn t f.adapter else ([], f)
  feed_step (elsewhere x) f = ([], record f { adapter = other x f.adapter })

  -- what a run puts out, in order, and the loop after it
  unfoldable pub feed_run : List (Event D X) → Feed C → List RawMessage × Feed C
  unfolding feed_step
  feed_run [] f = ([], f)
  feed_run (e ∷ es) f =
      let s = feed_step e f in let rest = feed_run es s.1 in (s.0 ++ rest.0, rest.1)
