-- ===== src/Tests/Server.antt =====
-- Runs of a server; a connection with two messages, a handler that panics, and a broken frame behind.
use spark_trade_mft_raw_data.Prelude.{
  ℕ, zero, suc, ◌%◌, ◌<◌, ◌≤◌, ◌≡◌, refl, true, false, length, All, Option, none, some, List, [],
  ◌∷◌, arith,
}
use spark_trade_mft_raw_data.Pipeline.{IpcMessage, RawWire, unmarshal_ipc}
use spark_trade_mft_raw_data.Ipc.Server.{ServerConn}
use spark_trade_mft_raw_data.Ipc.Server.Serving.{Sent}
use spark_trade_mft_raw_data.Ipc.Server.Lifecycle.{
  Server, finished, listen, move_at, move, move_nth, in_hand, any_in_hand, accept, close_tracked,
  stop, finish_stop, Action, accepts, moves, finishes, act, run,
}
use spark_trade_mft_raw_data.Ipc.Server.Lifecycle.Active.{held_count, is_held, run-listen-active}
use spark_trade_mft_raw_data.Ipc.Server.Lifecycle.Stopping.{turns, IsEnded, stopped_ends}

abbrev some_message : List ℕ → Option IpcMessage
some_message [] = none
some_message (n ∷ payload) = some (record { typ = "raw"; payload = payload; seq = n })

abbrev message_wire : RawWire
message_wire = record {
  marshal = λ rf. none;
  unmarshal = λ b. none;
  marshal_message = λ m. some (m.seq ∷ m.payload);
  unmarshal_message = some_message;
}

sent_twice : List (Sent message_wire)
unfolding unmarshal_ipc
sent_twice =
    record {
      body = 9 ∷ 1 ∷ [];
      message = record { typ = "raw"; payload = 1 ∷ []; seq = 9 };
      is_body = (omega arith, omega arith);
      reads = refl;
    }
    ∷ record {
      body = 8 ∷ [];
      message = record { typ = "raw"; payload = []; seq = 8 };
      is_body = (omega arith, omega arith);
      reads = refl;
    }
    ∷ []

abbrev new_conn : ServerConn
new_conn = record {
  handled = [];
  recv = 0;
  sent = 0;
  errors = 0;
  out = record { written = []; budget = 100 };
}

abbrev new_server : Server
new_server = record { conns = []; accepting = true; closed = false; active = 0; socket = true }

-- the first connection reads, and the second has just been tracked
abbrev two_came : List Action
two_came =
    accepts false ∷ moves 0 true ∷ moves 0 true ∷ moves 0 true ∷ accepts false ∷ moves 1 true ∷ []

abbrev four_turns : List Action
four_turns =
    moves 0 true
    ∷ moves 1 true
    ∷ accepts false
    ∷ moves 1 false
    ∷ moves 0 true
    ∷ moves 0 true
    ∷ moves 1 true
    ∷ finishes
    ∷ moves 0 true
    ∷ moves 1 true
    ∷ []

both_turn : (j : ℕ) → j < length (stop (run two_came new_server)).conns → 4 ≤ turns j four_turns
unfolding run act accept move_nth move move_at any_in_hand in_hand stop close_tracked
both_turn zero h = omega arith
both_turn (suc zero) h = omega arith
both_turn (suc (suc j)) h = absurd (omega arith)

run-listen-active_example :
    ((run two_came new_server).active
      ≡ held_count (run two_came new_server).conns % 0x1_0000_0000_0000_0000)
    × All
        (λ c. (c.tracked ≡ is_held c.at) × (c.at ≡ finished → c.open_ ≡ false))
        (run two_came new_server).conns
unfolding listen
run-listen-active_example = run-listen-active true true new_server two_came refl

stopped_ends_example :
    let t = finish_stop (accept false (run four_turns (stop (run two_came new_server)))) in
    (t.socket ≡ false) × (t.active ≡ 0) × All IsEnded t.conns
unfolding listen
stopped_ends_example = stopped_ends true true new_server two_came four_turns false refl both_turn
