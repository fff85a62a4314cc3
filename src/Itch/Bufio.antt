-- ===== src/Itch/Bufio.antt =====
-- ITCHBufioReader of pkg/parser/itch_mmap.go: the same records from a stream of bytes.
use spark_trade_mft_raw_data.Prelude.{
  ℕ, zero, suc, ◌+◌, ◌||◌, Option, none, some, List, [], ◌∷◌, ltb, ◌==◌, if◌then◌else◌, length,
  get_or, take, drop,
}

pub data BufioError : Type 0 where
  truncated_body truncated_sym unknown_type : BufioError

-- io.ReadFull into a buffer of `n > 0` bytes: the buffer and the stream after it, or an error.
unfoldable pub read_full : ℕ → List ℕ → Option (List ℕ × List ℕ)
read_full n s = if ltb (length s) n then none else some (take n s, drop n s)

pub data Step : Type 0 where
  next : List ℕ → Step
  fail : BufioError → Step

-- `if symLen > 0 { io.ReadFull(r.br, tmp) }`
unfoldable pub skip_symbol : ℕ → List ℕ → Step
unfolding read_full
skip_symbol sym_len s =
    if ltb 0 sym_len
    then (elim (read_full sym_len s) [ none ↦ fail truncated_sym | some (_, rest) ↦ next rest ])
    else next s

-- a body of `n` bytes whose byte `n - 1` is the length of the symbol
unfoldable pub skip_body : ℕ → ℕ → List ℕ → Step
unfolding read_full skip_symbol
skip_body n last s = elim (read_full n s) [
  | none ↦ fail truncated_body
  | some (buf, rest) ↦ skip_symbol (get_or buf last 0) rest
]

-- case 'S'
unfoldable pub skip_system : List ℕ → Step
unfolding read_full
skip_system s = elim (read_full 9 s) [ none ↦ fail truncated_body | some (_, rest) ↦ next rest ]

-- the switch of CountAll
unfoldable pub skip_record : ℕ → List ℕ → Step
skip_record mt s =
    if (mt == b'A') || (mt == b'T')
    then skip_body 34 33 s
    else if mt == b'M'
    then skip_body 33 32 s
    else if mt == b'S'
    then skip_system s
    else fail unknown_type

pub data Count : Type 0 where
  counted : ℕ → Option BufioError → Count
  stuck : Count

unfoldable pub count_stream_loop : ℕ → List ℕ → ℕ → Count
count_stream_loop zero s count = stuck
count_stream_loop (suc fuel) [] count = counted count none
count_stream_loop (suc fuel) (mt ∷ s) count = elim (skip_record mt s) [
  | next rest ↦ count_stream_loop fuel rest (count + 1)
  | fail e ↦ counted count (some e)
]

-- ITCHBufioReader.CountAll on a file with these bytes; each round takes a byte.
unfoldable pub count_stream : List ℕ → Count
unfolding count_stream_loop
count_stream s = count_stream_loop (length s + 1) s 0
