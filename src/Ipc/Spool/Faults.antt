-- ===== src/Ipc/Spool/Faults.antt =====
-- What a spool does when a send, the file or a record fails.
use spark_trade_mft_raw_data.Prelude.{
  ℕ, ◌+◌, ◌≤◌, ◌<◌, ◌≡◌, ◌≢◌, refl, ap, ◌∙◌, Option, none, some, List, [], ◌++◌, append_assoc,
  arith, length,
}
use spark_trade_mft_raw_data.Ipc.{IpcError, max_frame_size, frame_too_large}
use spark_trade_mft_raw_data.Ipc.Frame.RoundTrip.{frame, put}
use spark_trade_mft_raw_data.Ipc.Spool.{
  Spool, Found, records, oversized, stuck, drained, no_faults, rec_header, append, read_records,
  send_all, drain, drain_found, drain_sent,
}
use spark_trade_mft_raw_data.Ipc.Spool.Records.{
  file_of, read_file_of_oversized, read_records-ne-stuck,
}
use spark_trade_mft_raw_data.Ipc.Spool.Fifo.{Holds, append-put, emptied}

module _ {σ : Type 0} (send : List ℕ → σ → Option IpcError × σ) where
  -- A body of more than 4 MiB and less than 2 ^ 32 bytes, on a spool of whole records with room for it
  -- under the cap and on the disk: append accepts it, and then drain, as long as the file begins with
  -- what append has left in it, whatever follows, fails without one call of `send` and leaves the
  -- spool as it was. Seeking is assumed to work.
  pub drain_oversized :
      (bodies : List (List ℕ)) (body : List ℕ) (s later : Spool) (rest : List ℕ) (t : σ)
      → Holds bodies s
      → max_frame_size < length body
      → length body < 0x1_0000_0000
      → s.cur_bytes + (rec_header + length body) ≤ s.max_bytes
      → rec_header + length body ≤ s.file.budget
      → later.file.written ≡ (append body s).1.file.written ++ rest
      → ((append body s).0 ≡ none)
        × (drain send no_faults later t ≡ (drained 0 (some frame_too_large), later, t))
  unfolding drain drain_found
  drain_oversized bodies body s later rest t h lo hi cap room begins =
      (ap (λ r. r.0) put_, rw (found, drain_found) refl)
    where
      put_ : append body s ≡ (
        none,
        record s {
          file = put (frame body) s.file;
          cur_bytes = s.cur_bytes + (rec_header + length body);
        },
      )
      put_ = append-put body s hi cap room

      file : later.file.written ≡ file_of bodies ++ (frame body ++ rest)
      file =
          begins
          ∙ ap (λ r. r.1.file.written ++ rest) put_
          ∙ ap (λ w. (w ++ frame body) ++ rest) h.bytes
          ∙ append_assoc (file_of bodies) (frame body) rest

      found : read_records (length later.file.written + 1) later.file.written [] ≡ oversized
      found =
          ap (λ f. read_records (length f + 1) f []) file
          ∙ read_file_of_oversized bodies body rest h.sendable lo hi

  drain_found_cases :
      (s : Spool) (f : Found) (t : σ)
      → f ≢ stuck
      → (n : ℕ) × (e : Option IpcError) × (t' : σ) × (drain_found send no_faults s f t
          ≡ (drained n e, (elim e [ none ↦ emptied s | some _ ↦ s ]), t'))
  unfolding drain_found drain_sent
  drain_found_cases s (records recs) t h = go (send_all send recs t 0)
    where
      go :
          (r : ℕ × Option IpcError × σ)
          → (n : ℕ) × (e : Option IpcError) × (t' : σ) × (drain_sent send no_faults s r
              ≡ (drained n e, (elim e [ none ↦ emptied s | some _ ↦ s ]), t'))
      go (n, none, t') = (n, none, t', refl)
      go (n, some e, t') = (n, some e, t', refl)
  drain_found_cases s oversized t h = (0, some frame_too_large, t, refl)
  drain_found_cases s stuck t h = absurd (h refl)

  -- Whatever the file holds, `drain` ends. With an error it leaves the spool as it was, and without
  -- one it has emptied it.
  pub drain_total :
      (s : Spool) (t : σ)
      → (n : ℕ) × (e : Option IpcError) × (t' : σ) × (drain send no_faults s t
          ≡ (drained n e, (elim e [ none ↦ emptied s | some _ ↦ s ]), t'))
  unfolding drain
  drain_total s t =
      drain_found_cases s _ t (read_records-ne-stuck _ s.file.written [] (omega arith))
