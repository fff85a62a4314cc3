-- ===== src/Ipc/Spool.antt =====
-- pkg/ipc/spool.go: the bounded, append-only overflow file of a client.
pub mod Records
pub mod Fifo
pub mod Faults
use spark_trade_mft_raw_data.Prelude.{
  ℕ, zero, suc, ◌+◌, ◌*◌, ◌%◌, Bool, true, false, Option, none, some, List, [], ◌∷◌, ◌++◌, ltb,
  ◌==◌, if◌then◌else◌, length,
}
use spark_trade_mft_raw_data.Prelude.Word.{put_uint32}
use spark_trade_mft_raw_data.Ipc.{
  IpcError, Sink, ok, err, frame_too_large, spool_full, seek_failed, truncate_failed, read_full,
  write, max_frame_size,
}
use spark_trade_mft_raw_data.Ipc.Frame.{header_size}

-- `file.written` is what the file holds: it is opened with O_APPEND, so each write goes to its end.
pub record Spool : Type 0 where
  pub file : Sink
  pub cur_bytes : ℕ
  pub max_bytes : ℕ

abbrev pub rec_header : ℕ
rec_header = 4

abbrev pub default_max_bytes : ℕ
default_max_bytes = 256 * 1024 * 1024

-- newSpool on a file that could be opened
unfoldable pub new_spool : Sink → ℕ → Spool
new_spool f max_bytes = record {
  file = f;
  cur_bytes = length f.written;
  max_bytes = if max_bytes == 0 then default_max_bytes else max_bytes;
}

append_body : ℕ → Spool → ℕ × Option IpcError × Sink → Option IpcError × Spool
append_body rec_len s (n, some x, f) = (some x, record s { file = f })
append_body rec_len s (n, none, f) =
    (none, record s { file = f; cur_bytes = s.cur_bytes + rec_len })

append_header : List ℕ → Spool → ℕ × Option IpcError × Sink → Option IpcError × Spool
unfolding append_body
append_header body s (n, some x, f) = (some x, record s { file = f })
append_header body s (n, none, f) = append_body (rec_header + length body) s (write body f)

-- append
unfoldable pub append : List ℕ → Spool → Option IpcError × Spool
unfolding append_header
append body s =
    if ltb s.max_bytes (s.cur_bytes + (rec_header + length body))
    then (some spool_full, s)
    else append_header body s (write (put_uint32 (length body % 0x1_0000_0000)) s.file)

-- What the reading half of `drain` finds in the file; `stuck` is fuel run out.
pub data Found : Type 0 where
  records : List (List ℕ) → Found
  oversized : Found
  stuck : Found

-- A header or a body that is cut off ends the file; an empty record is skipped.
unfoldable pub read_records : ℕ → List ℕ → List (List ℕ) → Found
read_records zero s recs = stuck
read_records (suc fuel) s recs = elim (read_full rec_header s) [
  | err e ↦ records recs
  | ok (hdr, rest) ↦ elim (header_size hdr == 0) [
    | true ↦ read_records fuel rest recs
    | false ↦ elim (ltb max_frame_size (header_size hdr)) [
      | true ↦ oversized
      | false ↦ elim (read_full (header_size hdr) rest) [
        | err e ↦ records recs
        | ok (body, rest') ↦ read_records fuel rest' (recs ++ (body ∷ []))
      ]
    ]
  ]
]

-- The operations of the file that can fail in `drain`.
pub record FileFaults : Type 0 where
  pub seek_fails : Bool
  pub truncate_fails : Bool
  pub rewind_fails : Bool

abbrev pub no_faults : FileFaults
no_faults = record { seek_fails = false; truncate_fails = false; rewind_fails = false }

-- What `drain` returns: the number sent and the error. `lost` stands for fuel run out.
pub data Drained : Type 0 where
  drained : ℕ → Option IpcError → Drained
  lost : Drained

-- A send that failed ends the loop.
abbrev pub unless_failed :
    {σ : Type 0} → ℕ → Option IpcError × σ → (σ → ℕ × Option IpcError × σ) → ℕ × Option IpcError × σ
unless_failed sent (some e, t) f = (sent, some e, t)
unless_failed sent (none, t) f = f t

module _ {σ : Type 0} (send : List ℕ → σ → Option IpcError × σ) where
  -- the loop over the records; the sender's state is passed along
  unfoldable pub send_all : List (List ℕ) → σ → ℕ → ℕ × Option IpcError × σ
  send_all [] t sent = (sent, none, t)
  send_all (body ∷ recs) t sent = unless_failed sent (send body t) (λ u. send_all recs u (sent + 1))

  -- Truncate, rewind and reset the counter, once every record is sent.
  drain_sent : FileFaults → Spool → ℕ × Option IpcError × σ → Drained × Spool × σ
  drain_sent faults s (sent, some e, t) = (drained sent (some e), s, t)
  drain_sent faults s (sent, none, t) =
      if faults.truncate_fails
      then (drained sent (some truncate_failed), s, t)
      else (let empty : Sink = record {
        written = [];
        budget = s.file.budget + length s.file.written;
      } in
          if faults.rewind_fails
          then (drained sent (some seek_failed), record s { file = empty }, t)
          else (drained sent none, record s { file = empty; cur_bytes = 0 }, t))

  drain_found : FileFaults → Spool → Found → σ → Drained × Spool × σ
  unfolding drain_sent send_all
  drain_found faults s (records recs) t = drain_sent faults s (send_all recs t 0)
  drain_found faults s oversized t = (drained 0 (some frame_too_large), s, t)
  drain_found faults s stuck t = (lost, s, t)

  -- drain; every record takes four bytes, so there is fuel for as many rounds as there are bytes
  unfoldable pub drain : FileFaults → Spool → σ → Drained × Spool × σ
  unfolding drain_found
  drain faults s t =
      if faults.seek_fails
      then (drained 0 (some seek_failed), s, t)
      else drain_found faults s (read_records (length s.file.written + 1) s.file.written []) t
