-- ===== src/Ipc/Frame.antt =====
-- pkg/ipc/frame.go: length-prefixed frames.
pub mod RoundTrip
use spark_trade_mft_raw_data.Prelude.{
  ℕ, ◌+◌, ◌%◌, Option, none, some, List, [], ◌∷◌, ltb, ◌==◌, if◌then◌else◌, length,
}
use spark_trade_mft_raw_data.Prelude.Word.{put_uint32, uint32}
use spark_trade_mft_raw_data.Ipc.{
  IpcError, Result, Sink, ok, err, frame_too_large, read_full, write, max_frame_size,
  len_field_size,
}

-- binary.BigEndian.Uint32 of the four bytes of a header
unfoldable pub header_size : List ℕ → ℕ
unfolding uint32
header_size (a ∷ b ∷ c ∷ d ∷ _) = uint32 a b c d
header_size _ = 0

read_body : ℕ → List ℕ → Result (List ℕ × List ℕ)
read_body size s =
    if size == 0
    then ok ([], s)
    else if ltb max_frame_size size
    then err frame_too_large
    else read_full size s

-- ReadFrame: the body and the stream behind the frame. The buffer that Go reuses holds this body;
-- after an error no caller reads it.
unfoldable pub read_frame : List ℕ → Result (List ℕ × List ℕ)
unfolding read_body header_size
read_frame s = elim (read_full len_field_size s) [
  | err e ↦ err e
  | ok (hdr, rest) ↦ read_body (header_size hdr) rest
]

-- WriteFrame behind the header; a body with no byte is not written.
write_body : List ℕ → Sink → ℕ × Option IpcError × Sink
write_body bs w =
    if length bs == 0
    then (len_field_size, none, w)
    else (let (n, e, w') = write bs w in (len_field_size + n, e, w'))

-- Nothing more is written where the header was not.
write_rest : List ℕ → ℕ × Option IpcError × Sink → ℕ × Option IpcError × Sink
unfolding write_body
write_rest bs (n, some x, w) = (0, some x, w)
write_rest bs (n, none, w) = write_body bs w

-- WriteFrame: the bytes written, the error, and the sink.
unfoldable pub write_frame : List ℕ → Sink → ℕ × Option IpcError × Sink
unfolding write_rest
write_frame bs w =
    if ltb max_frame_size (length bs)
    then (0, some frame_too_large, w)
    else write_rest bs (write (put_uint32 (length bs % 0x1_0000_0000)) w)
