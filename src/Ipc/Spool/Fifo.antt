-- ===== src/Ipc/Spool/Fifo.antt =====
-- A spool replays what was appended, in order, and gives it up only when all of it was sent.
use spark_trade_mft_raw_data.Prelude.{
  ℕ, ◌+◌, ◌≤◌, ◌<◌, ◌%◌, ◌≡◌, refl, ap, sym, ◌∙◌, Option, none, some, List, [], ◌∷◌, ◌++◌,
  append_assoc, append-nil, arith, le→ltb_false, length, length-append, All, All-append,
}
use spark_trade_mft_raw_data.Prelude.Word.{put_uint32}
use spark_trade_mft_raw_data.Ipc.{IpcError}
use spark_trade_mft_raw_data.Ipc.Frame.RoundTrip.{frame, put, put-put, write-put, length-put_uint32}
use spark_trade_mft_raw_data.Ipc.Spool.{
  Spool, records, drained, no_faults, rec_header, append, read_records, send_all, drain,
  drain_found, drain_sent,
}
use spark_trade_mft_raw_data.Ipc.Spool.Records.{IsBody, file_of, read_file_of}

-- The spool holds these records and its counter is right.
pub record Holds (bodies : List (List ℕ)) (s : Spool) : Type 0 where
  pub bytes : s.file.written ≡ file_of bodies
  pub counted : s.cur_bytes ≡ length s.file.written
  pub sendable : All IsBody bodies

-- An append that fits the cap, on a disk with room.
pub append-put :
    (body : List ℕ) (s : Spool)
    → length body < 0x1_0000_0000
    → s.cur_bytes + (rec_header + length body) ≤ s.max_bytes
    → rec_header + length body ≤ s.file.budget
    → append body s ≡ (
      none,
      record s {
        file = put (frame body) s.file;
        cur_bytes = s.cur_bytes + (rec_header + length body);
      },
    )
unfolding append
append-put body s small cap room = rw (
  le→ltb_false s.max_bytes (s.cur_bytes + (rec_header + length body)) cap,
  append,
  uint,
  write-put (put_uint32 (length body)) s.file (omega (arith, length-put_uint32 (length body))),
  write-put body (put (put_uint32 (length body)) s.file)
      (omega (arith, length-put_uint32 (length body))),
  put-put,
)
  where
    uint : length body % 0x1_0000_0000 ≡ length body
    uint = omega arith

file_of-snoc :
    (bodies : List (List ℕ)) (body : List ℕ)
    → file_of (bodies ++ (body ∷ [])) ≡ file_of bodies ++ frame body
file_of-snoc [] body = append-nil (frame body)
file_of-snoc (b ∷ bodies) body =
    ap (λ t. frame b ++ t) (file_of-snoc bodies body)
    ∙ sym (append_assoc (frame b) (file_of bodies) (frame body))

-- A body of 1 byte to 4 MiB that fits the cap and the disk is appended behind the others.
pub append-Holds :
    (bodies : List (List ℕ)) (body : List ℕ) (s : Spool)
    → Holds bodies s
    → IsBody body
    → s.cur_bytes + (rec_header + length body) ≤ s.max_bytes
    → rec_header + length body ≤ s.file.budget
    → ((append body s).0 ≡ none) × Holds (bodies ++ (body ∷ [])) (append body s).1
append-Holds bodies body s h b cap room = rw (append-put body s (omega arith) cap room) (
  refl,
  record {
    bytes = ap (λ t. t ++ frame body) h.bytes ∙ sym (file_of-snoc bodies body);
    counted = omega (
      arith,
      h.counted,
      length-append s.file.written (frame body),
      length-append (put_uint32 (length body)) body,
      length-put_uint32 (length body),
    );
    sendable = All-append IsBody bodies (body ∷ []) h.sendable (b, tt);
  },
)

-- The emptied spool.
abbrev pub emptied : Spool → Spool
emptied s = record s {
  file = record { written = []; budget = s.file.budget + length s.file.written };
  cur_bytes = 0;
}

module _ {σ : Type 0} (send : List ℕ → σ → Option IpcError × σ) where
  -- `drain` hands the records to `send` in the order in which they were appended. If all are sent
  -- the spool is emptied; if one fails the spool is left as it was.
  pub drain-Holds :
      (bodies : List (List ℕ)) (s : Spool) (t : σ)
      → Holds bodies s
      → drain send no_faults s t ≡ (
          let (sent, e, t') = send_all send bodies t 0 in
          (drained sent e, (elim e [ none ↦ emptied s | some _ ↦ s ]), t'))
  unfolding drain drain_found
  drain-Holds bodies s t h = rw (all, drain_found) (go (send_all send bodies t 0))
    where
      all : read_records (length s.file.written + 1) s.file.written [] ≡ records bodies
      all =
          ap (λ f. read_records (length f + 1) f []) (h.bytes ∙ sym (append-nil (file_of bodies)))
          ∙ read_file_of bodies [] h.sendable (omega arith)

      go :
          (r : ℕ × Option IpcError × σ)
          → drain_sent send no_faults s r
            ≡ (drained r.0 r.1, (elim r.1 [ none ↦ emptied s | some _ ↦ s ]), r.2)
      go (sent, none, t') = refl
      go (sent, some e, t') = refl
