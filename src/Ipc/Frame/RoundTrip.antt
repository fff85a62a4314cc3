-- ===== src/Ipc/Frame/RoundTrip.antt =====
-- What `write_frame` puts on the wire, `read_frame` reads back.
use spark_trade_mft_raw_data.Prelude.{
  ℕ, ◌+◌, ◌-◌, ◌≤◌, ◌<◌, ◌%◌, ◌≡◌, refl, ap, sym, ◌∙◌, suc-eq-zero, none, List, [], ◌∷◌, ◌++◌,
  append_assoc, append-nil, arith, le→ltb_false, length, length-append, take-append, drop-append,
}
use spark_trade_mft_raw_data.Prelude.Word.{put_uint32, uint32-put}
use spark_trade_mft_raw_data.Ipc.{Sink, ok, read_full, write, max_frame_size, len_field_size}
use spark_trade_mft_raw_data.Ipc.Frame.{read_frame, write_frame, read_body, write_body, header_size}

-- The bytes of a frame.
abbrev pub frame : List ℕ → List ℕ
frame bs = put_uint32 (length bs) ++ bs

pub read_full-append : (bs rest : List ℕ) → read_full (length bs) (bs ++ rest) ≡ ok (bs, rest)
unfolding read_full
read_full-append bs rest = rw (
  le→ltb_false (length (bs ++ rest)) (length bs) (omega (arith, length-append bs rest)),
  take-append,
  drop-append,
)

pub read_header :
    (n : ℕ) (rest : List ℕ)
    → read_full len_field_size (put_uint32 n ++ rest) ≡ ok (put_uint32 n, rest)
unfolding put_uint32
read_header n rest = read_full-append (put_uint32 n) rest

pub header_size-put : (n : ℕ) → n < 0x1_0000_0000 → header_size (put_uint32 n) ≡ n
unfolding put_uint32 header_size
header_size-put n h = uint32-put n h

-- A frame of at most 4 MiB is read back whole, and what follows it is left in the stream.
pub read_frame-frame :
    (bs rest : List ℕ) → length bs ≤ max_frame_size → read_frame (frame bs ++ rest) ≡ ok (bs, rest)
unfolding read_frame
read_frame-frame bs rest h =
    rw
      (
        append_assoc (put_uint32 (length bs)) bs rest,
        read_frame,
        read_header,
        header_size-put (length bs) (omega arith),
      )
      (go bs h)
  where
    go :
        (bs : List ℕ)
        → length bs ≤ max_frame_size
        → read_body (length bs) (bs ++ rest) ≡ ok (bs, rest)
    go [] k = refl
    go (b ∷ bs) k =
        rw (suc-eq-zero (length bs), le→ltb_false max_frame_size (length (b ∷ bs)) k)
          (read_full-append (b ∷ bs) rest)

abbrev pub put : List ℕ → Sink → Sink
put bs w = record w { written = w.written ++ bs; budget = w.budget - length bs }

pub write-put :
    (bs : List ℕ) (w : Sink) → length bs ≤ w.budget → write bs w ≡ (length bs, none, put bs w)
unfolding write
write-put bs w h = rw (le→ltb_false w.budget (length bs) h)

pub length-put_uint32 : (n : ℕ) → length (put_uint32 n) ≡ 4
unfolding put_uint32
length-put_uint32 n = refl

pub put-put : (xs ys : List ℕ) (w : Sink) → put ys (put xs w) ≡ put (xs ++ ys) w
put-put xs ys w = λ i. record { written = append_assoc w.written xs ys i; budget = budgets i }
  where
    budgets : w.budget - length xs - length ys ≡ w.budget - length (xs ++ ys)
    budgets = omega (arith, length-append xs ys)

write_body-put :
    (bs : List ℕ) (w : Sink)
    → length bs ≤ w.budget
    → write_body bs w ≡ (len_field_size + length bs, none, put bs w)
unfolding write_body
write_body-put [] w h =
    λ i. (4, none, record { written = sym (append-nil w.written) i; budget = all i })
  where
    all : w.budget ≡ w.budget - 0
    all = omega arith
write_body-put (b ∷ bs) w h = rw (suc-eq-zero (length bs), write-put (b ∷ bs) w h)

-- On a connection that takes the frame, `write_frame` puts exactly the frame on the wire.
pub write_frame-frame :
    (bs : List ℕ) (w : Sink)
    → length bs ≤ max_frame_size
    → len_field_size + length bs ≤ w.budget
    → write_frame bs w ≡ (len_field_size + length bs, none, put (frame bs) w)
unfolding write_frame
write_frame-frame bs w h k =
    rw
      (
        le→ltb_false max_frame_size (length bs) h,
        write_frame,
        small,
        write-put (put_uint32 (length bs)) w fits,
      )
      (write_body-put bs (put (put_uint32 (length bs)) w) left
        ∙ ap (λ v. (len_field_size + length bs, none, v)) (put-put (put_uint32 (length bs)) bs w))
  where
    small : length bs % 0x1_0000_0000 ≡ length bs
    small = omega arith

    fits : length (put_uint32 (length bs)) ≤ w.budget
    fits = omega (arith, length-put_uint32 (length bs))

    left : length bs ≤ w.budget - length (put_uint32 (length bs))
    left = omega (arith, length-put_uint32 (length bs))

-- A body of at most 4 MiB that goes over a connection with room for its frame comes out of the
-- other end as it was, with `write_frame` reporting every byte, and the reader stands at what
-- follows.
pub read-write_frame :
    (bs rest : List ℕ) (room : ℕ)
    → length bs ≤ max_frame_size
    → len_field_size + length bs ≤ room
    → let (n, e, w) = write_frame bs (record { written = []; budget = room }) in
      (n ≡ len_field_size + length bs)
      × (e ≡ none)
      × (read_frame (w.written ++ rest) ≡ ok (bs, rest))
read-write_frame bs rest room h k =
    rw (write_frame-frame bs (record { written = []; budget = room }) h k)
      (refl, refl, read_frame-frame bs rest h)
