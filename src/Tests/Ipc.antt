-- ===== src/Tests/Ipc.antt =====
-- pkg/ipc at concrete messages.
use spark_trade_mft_raw_data.Prelude.{
  ℕ, zero, suc, ◌≡◌, refl, ap, true, Option, none, some, List, [], ◌∷◌, ◌++◌, arith, length,
}
use spark_trade_mft_raw_data.Prelude.Word.{put_uint32}
use spark_trade_mft_raw_data.Ipc.{IpcError, Sink, frame_too_large, no_connection}
use spark_trade_mft_raw_data.Ipc.Spool.{Spool, drained, no_faults, append, drain}
use spark_trade_mft_raw_data.Ipc.Spool.Records.{file_of}
use spark_trade_mft_raw_data.Ipc.Spool.Fifo.{Holds, emptied}
use spark_trade_mft_raw_data.Ipc.Spool.Faults.{drain_oversized, drain_total}
use spark_trade_mft_raw_data.Ipc.Client.{Client, new_client, flushed, send, here, next, sends}
use spark_trade_mft_raw_data.Ipc.Client.Queue.{Grows, Reach-Grows}
use spark_trade_mft_raw_data.Ipc.Client.Undelivered.{
  drain_round, conn_break, run, send_each, queued_undelivered,
}

abbrev wire_of : ℕ → Sink
wire_of room = record { written = []; budget = room }

abbrev two : List (List ℕ)
two = (7 ∷ []) ∷ (8 ∷ 9 ∷ []) ∷ []

abbrev spool_of : ℕ → ℕ → Spool
spool_of max_bytes room = record {
  file = record { written = file_of two; budget = room };
  cur_bytes = 11;
  max_bytes = max_bytes;
}

Holds-two : (max_bytes room : ℕ) → Holds two (spool_of max_bytes room)
unfolding put_uint32
Holds-two max_bytes room = record {
  bytes = refl;
  counted = refl;
  sendable = ((omega arith, omega arith), ((omega arith, omega arith), tt));
}

-- A receiver that takes one message and then fails.
abbrev one_only : List ℕ → ℕ → Option IpcError × ℕ
one_only body zero = (none, 1)
one_only body (suc n) = (some no_connection, suc n)

drain_total_example :
    (n : ℕ) × (e : Option IpcError) × (t : ℕ) × (drain one_only no_faults (spool_of 100 100) 0 ≡ (
      drained n e,
      (elim e [ none ↦ emptied (spool_of 100 100) | some _ ↦ spool_of 100 100 ]),
      t,
    ))
drain_total_example = drain_total one_only (spool_of 100 100) 0

zeros : ℕ → List ℕ
zeros zero = []
zeros (suc n) = 0 ∷ zeros n

length-zeros : (n : ℕ) → length (zeros n) ≡ n
unfolding zeros
length-zeros zero = refl
length-zeros (suc n) = ap suc (length-zeros n)

-- one byte more than a frame may have
abbrev too_big : List ℕ
too_big = zeros 4_194_305

-- one byte more in the file
abbrev longer : Spool → Spool
longer s = record s { file = record s.file { written = s.file.written ++ (1 ∷ []) } }

drain_oversized_example :
    let s = append too_big (spool_of 10_000_000 10_000_000) in
    (s.0 ≡ none)
    × (drain one_only no_faults (longer s.1) 0 ≡ (drained 0 (some frame_too_large), longer s.1, 0))
drain_oversized_example =
    drain_oversized one_only two too_big (spool_of 10_000_000 10_000_000)
      (longer (append too_big (spool_of 10_000_000 10_000_000)).1) (1 ∷ []) 0
      (Holds-two 10_000_000 10_000_000) (omega (arith, length-zeros 4_194_305))
      (omega (arith, length-zeros 4_194_305)) (omega (arith, length-zeros 4_194_305))
      (omega (arith, length-zeros 4_194_305)) refl

abbrev fresh : Client
fresh = new_client 8 100 (wire_of 100)

abbrev bytes_of : List ℕ → Option (List ℕ)
bytes_of m = some m

queued_undelivered_example :
    let (refused, d) = send_each bytes_of two fresh in
    let todo =
      drain_round (some (wire_of 1000)) no_faults
      ∷ conn_break
      ∷ drain_round (some (wire_of 1000)) no_faults
      ∷ [] in
    (refused ≡ none)
    × (flushed d ≡ true)
    × ((run todo d).queue ≡ [] ++ two)
    × ((run todo d).wire.sent ≡ 0)
unfolding new_client
queued_undelivered_example =
    queued_undelivered bytes_of two two fresh
      (drain_round (some (wire_of 1000)) no_faults
        ∷ conn_break
        ∷ drain_round (some (wire_of 1000)) no_faults
        ∷ [])
      refl refl refl (omega arith) refl

Reach-Grows_example : Grows fresh (send bytes_of (some (7 ∷ [])) fresh).1
Reach-Grows_example = Reach-Grows bytes_of (next here (sends (some (7 ∷ [])) fresh))
