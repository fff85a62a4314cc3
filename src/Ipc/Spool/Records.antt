-- ===== src/Ipc/Spool/Records.antt =====
-- What the file of a spool holds, and how `read_records` reads it.
use spark_trade_mft_raw_data.Prelude.{
  ℕ, zero, suc, ◌+◌, ◌-◌, ◌≤◌, ◌<◌, ◌≡◌, ◌≢◌, inl, inr, refl, ap, ◌∙◌, Bool-cases, true, false,
  List, [], ◌∷◌, ◌++◌, append_assoc, append-nil, arith, ltb, lt→ltb, le→ltb_false, ◌==◌, length,
  length-append, length-drop, All,
}
use spark_trade_mft_raw_data.Prelude.Word.{put_uint32}
use spark_trade_mft_raw_data.Ipc.{Result-cases, ok, read_full, max_frame_size}
use spark_trade_mft_raw_data.Ipc.Frame.{header_size}
use spark_trade_mft_raw_data.Ipc.Frame.RoundTrip.{
  frame, read_full-append, read_header, header_size-put,
}
use spark_trade_mft_raw_data.Ipc.Spool.{records, oversized, stuck, read_records, rec_header}

-- A body that a record can carry.
abbrev pub IsBody : List ℕ → Type 0
IsBody body = (0 < length body) × (length body ≤ max_frame_size)

-- The bytes of a file of records.
abbrev pub file_of : List (List ℕ) → List ℕ
file_of [] = []
file_of (body ∷ recs) = frame body ++ file_of recs

-- One round that finds a whole record.
read_records-body :
    (fuel : ℕ) (s hdr rest body rest' : List ℕ) (recs : List (List ℕ))
    → read_full rec_header s ≡ ok (hdr, rest)
    → (header_size hdr == 0) ≡ false
    → ltb max_frame_size (header_size hdr) ≡ false
    → read_full (header_size hdr) rest ≡ ok (body, rest')
    → read_records (suc fuel) s recs ≡ read_records fuel rest' (recs ++ (body ∷ []))
unfolding read_records
read_records-body fuel s hdr rest body rest' recs a b c d = rw (a, read_records, b, c, d)

read_records-frame :
    (fuel : ℕ) (body rest : List ℕ) (recs : List (List ℕ))
    → IsBody body
    → read_records (suc fuel) (frame body ++ rest) recs
      ≡ read_records fuel rest (recs ++ (body ∷ []))
read_records-frame fuel body rest recs (lo, hi) =
    rw (append_assoc (put_uint32 (length body)) body rest) (
      read_records-body fuel _ _ (body ++ rest) body rest recs
        (read_header (length body) (body ++ rest)) (rw size (ground arith))
        (rw size (le→ltb_false max_frame_size (length body) hi))
        (rw size (read_full-append body rest)))
  where
    size : header_size (put_uint32 (length body)) ≡ length body
    size = header_size-put (length body) (omega arith)

-- Whole records at the front of a file are read, and reading goes on behind them.
pub read_records-file_of :
    (bodies : List (List ℕ)) (fuel k : ℕ) (rest : List ℕ) (recs : List (List ℕ))
    → fuel ≡ length bodies + k
    → All IsBody bodies
    → read_records fuel (file_of bodies ++ rest) recs ≡ read_records k rest (recs ++ bodies)
read_records-file_of [] fuel k rest recs e h =
    rw append-nil (ap (λ n. read_records n rest recs) (omega arith))
read_records-file_of (body ∷ bodies) zero k rest recs e h = absurd (omega arith)
read_records-file_of (body ∷ bodies) (suc fuel) k rest recs e (b, h) =
    ap (λ t. read_records (suc fuel) t recs) (append_assoc (frame body) (file_of bodies) rest)
    ∙ read_records-frame fuel body (file_of bodies ++ rest) recs b
    ∙ read_records-file_of bodies fuel k rest (recs ++ (body ∷ [])) (omega arith) h
    ∙ ap (read_records k rest) (append_assoc recs (body ∷ []) bodies)

pub length-file_of : (bodies : List (List ℕ)) → length bodies ≤ length (file_of bodies)
unfolding put_uint32
length-file_of [] = omega arith
length-file_of (body ∷ bodies) =
    omega (arith, length-file_of bodies, length-append (frame body) (file_of bodies))

-- A rest that is shorter than a header ends the file.
read_records_end :
    (k : ℕ) (rest : List ℕ) (recs : List (List ℕ))
    → length rest < 4
    → read_records (suc k) rest recs ≡ records recs
unfolding read_records read_full
read_records_end k [] recs h = refl
read_records_end k (a ∷ rest) recs h = rw (lt→ltb (length (a ∷ rest)) 4 h, read_records)

-- A file of whole records, with less than a header behind them, is read as those records.
pub read_file_of :
    (bodies : List (List ℕ)) (rest : List ℕ)
    → All IsBody bodies
    → length rest < 4
    → read_records (length (file_of bodies ++ rest) + 1) (file_of bodies ++ rest) []
      ≡ records bodies
read_file_of bodies rest h k =
    read_records-file_of bodies _ (suc (length (file_of bodies ++ rest) - length bodies)) rest []
      fuel h
    ∙ read_records_end _ rest bodies k
  where
    fuel :
        length (file_of bodies ++ rest) + 1
        ≡ length bodies + suc (length (file_of bodies ++ rest) - length bodies)
    fuel = omega (arith, length-file_of bodies, length-append (file_of bodies) rest)

-- A record that declares more than 4 MiB makes the file unreadable.
read_records_oversized :
    (k : ℕ) (body rest : List ℕ) (recs : List (List ℕ))
    → max_frame_size < length body
    → length body < 0x1_0000_0000
    → read_records (suc k) (frame body ++ rest) recs ≡ oversized
unfolding read_records
read_records_oversized k body rest recs lo hi =
    rw (append_assoc (put_uint32 (length body)) body rest, read_records, read_header, nonempty, big)
  where
    size : header_size (put_uint32 (length body)) ≡ length body
    size = header_size-put (length body) hi

    nonempty : (header_size (put_uint32 (length body)) == 0) ≡ false
    nonempty = rw size (ground arith)

    big : ltb max_frame_size (header_size (put_uint32 (length body))) ≡ true
    big = rw size (lt→ltb max_frame_size (length body) lo)

pub read_file_of_oversized :
    (bodies : List (List ℕ)) (body rest : List ℕ)
    → All IsBody bodies
    → max_frame_size < length body
    → length body < 0x1_0000_0000
    → let f = file_of bodies ++ (frame body ++ rest) in read_records (length f + 1) f [] ≡ oversized
read_file_of_oversized bodies body rest h lo hi =
    read_records-file_of bodies _
      (suc (length (file_of bodies ++ (frame body ++ rest)) - length bodies)) (frame body ++ rest)
      [] fuel h
    ∙ read_records_oversized _ body rest bodies lo hi
  where
    fuel :
        length (file_of bodies ++ (frame body ++ rest)) + 1
        ≡ length bodies + suc (length (file_of bodies ++ (frame body ++ rest)) - length bodies)
    fuel = omega (arith, length-file_of bodies, length-append (file_of bodies) (frame body ++ rest))

read_full-shorter :
    (n : ℕ) (s bs rest : List ℕ) → read_full n s ≡ ok (bs, rest) → length rest + n ≡ length s
unfolding read_full
read_full-shorter n [] bs rest e = ground (arith, length-drop n (let xs : List ℕ = [] in xs))
read_full-shorter n (a ∷ s) bs rest e = ground (arith, length-drop n (a ∷ s))

-- One round calls itself on a shorter rest, or ends.
pub read_records-ne-stuck :
    (fuel : ℕ) (s : List ℕ) (recs : List (List ℕ))
    → length s < fuel
    → read_records fuel s recs ≢ stuck
unfolding read_records
read_records-ne-stuck zero s recs h = elim h [ ]
read_records-ne-stuck (suc fuel) s recs h = elim (Result-cases (read_full rec_header s)) [
  | inr (e, p) ↦ rw (p, read_records) (λ q. cc)
  | inl ((hdr, rest), p) ↦ elim (Bool-cases (header_size hdr == 0)) [
    | inl b ↦
        rw (p, read_records, b)
          (read_records-ne-stuck fuel rest recs (omega (arith, read_full-shorter _ _ _ _ p)))
    | inr b ↦ elim (Bool-cases (ltb max_frame_size (header_size hdr))) [
      | inl c ↦ rw (p, read_records, b, c) (λ q. cc)
      | inr c ↦ elim (Result-cases (read_full (header_size hdr) rest)) [
        | inr (e, q) ↦ rw (p, read_records, b, c, q) (λ q. cc)
        | inl ((body, rest'), q) ↦
            rw (p, read_records, b, c, q)
              (read_records-ne-stuck fuel rest' (recs ++ (body ∷ []))
                (omega (arith, read_full-shorter _ _ _ _ p, read_full-shorter _ _ _ _ q)))
      ]
    ]
  ]
]
