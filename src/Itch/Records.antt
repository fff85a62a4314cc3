-- ===== src/Itch/Records.antt =====
-- What `parse_one` answers at an offset: where its record ends, or which error.
use spark_trade_mft_raw_data.Prelude.{
  ℕ, suc, ◌+◌, ◌≤◌, ◌<◌, ◌≡◌, refl, ◌||◌, ◌&&◌, Option, none, some, arith, leb, ◌==◌, le→leb_false,
  if◌then◌else◌,
}
use spark_trade_mft_raw_data.Itch.{
  ReaderAt, Reply, Field, ItchMessage, side_field, sym_len_field, code_field, ok, err, panic,
  truncated, ItchError, byte_at, parse_order, parse_modify, parse_system, parse_body, parse_one,
}
use spark_trade_mft_raw_data.Itch.Reads.{
  byte, at-byte, u64-word, u64_short, i64-word, i64_short, symbol-take, symbol_short,
}

-- The offset behind a body that starts at `pos`: `n` bytes, the last of them the length of the
-- symbol that follows.
abbrev pub symbol_end : ReaderAt → ℕ → ℕ → Option ℕ
symbol_end r pos n =
    if leb (pos + suc n) r.len && leb (pos + suc n + byte r (pos + n)) r.len
    then some (pos + suc n + byte r (pos + n))
    else none

-- The offset behind the record of type `mt` whose body starts at `pos`, if it is complete.
abbrev pub body_end : ReaderAt → ℕ → ℕ → Option ℕ
body_end r mt pos =
    if (mt == b'A') || (mt == b'T')
    then symbol_end r pos 33
    else if mt == b'M'
    then symbol_end r pos 32
    else if mt == b'S'
    then (if leb (pos + 9) r.len then some (pos + 9) else none)
    else none

-- What the loops look at: `some` of where the next record starts or of `none` for an error, and
-- `none` for a panic.
abbrev pub next_of : Reply (ItchMessage × ℕ) → Option (Option ℕ)
next_of (ok (m, n)) = some (some n)
next_of (err e) = some none
next_of panic = none

module _ (r : ReaderAt) where
  pub byte_at-byte : (f : Field) (i : ℕ) → i < r.len → byte_at r f i ≡ ok (byte r i)
  unfolding byte_at
  byte_at-byte f i h = ground (arith, at-byte r i)

  byte_at_short : (f : Field) (i : ℕ) → r.len ≤ i → byte_at r f i ≡ err (truncated f)
  unfolding byte_at
  byte_at_short f i h = ground arith

  next_of-order : (mt pos : ℕ) → next_of (parse_order r mt pos) ≡ some (symbol_end r pos 33)
  unfolding parse_order
  next_of-order mt pos = ground (
    arith,
    u64-word r pos,
    u64_short r pos,
    i64-word r (pos + 8),
    i64_short r (pos + 8),
    byte_at-byte side_field (pos + 8 + 8),
    byte_at_short side_field (pos + 8 + 8),
    u64-word r (pos + 8 + 8 + 1),
    u64_short r (pos + 8 + 8 + 1),
    u64-word r (pos + 8 + 8 + 1 + 8),
    u64_short r (pos + 8 + 8 + 1 + 8),
    byte_at-byte sym_len_field (pos + 8 + 8 + 1 + 8 + 8),
    byte_at_short sym_len_field (pos + 8 + 8 + 1 + 8 + 8),
    symbol-take r (pos + 8 + 8 + 1 + 8 + 8 + 1) (byte r (pos + 33)),
    symbol_short r (pos + 8 + 8 + 1 + 8 + 8 + 1) (byte r (pos + 33)),
  )

  next_of-modify : (mt pos : ℕ) → next_of (parse_modify r mt pos) ≡ some (symbol_end r pos 32)
  unfolding parse_modify
  next_of-modify mt pos = ground (
    arith,
    u64-word r pos,
    u64_short r pos,
    i64-word r (pos + 8),
    i64_short r (pos + 8),
    u64-word r (pos + 8 + 8),
    u64_short r (pos + 8 + 8),
    u64-word r (pos + 8 + 8 + 8),
    u64_short r (pos + 8 + 8 + 8),
    byte_at-byte sym_len_field (pos + 8 + 8 + 8 + 8),
    byte_at_short sym_len_field (pos + 8 + 8 + 8 + 8),
    symbol-take r (pos + 8 + 8 + 8 + 8 + 1) (byte r (pos + 32)),
    symbol_short r (pos + 8 + 8 + 8 + 8 + 1) (byte r (pos + 32)),
  )

  next_of-system :
      (mt pos : ℕ)
      → next_of (parse_system r mt pos)
        ≡ some (if leb (pos + 9) r.len then some (pos + 9) else none)
  unfolding parse_system
  next_of-system mt pos = ground (
    arith,
    i64-word r pos,
    i64_short r pos,
    byte_at-byte code_field (pos + 8),
    byte_at_short code_field (pos + 8),
  )

  next_of-body : (mt pos : ℕ) → next_of (parse_body r mt pos) ≡ some (body_end r mt pos)
  unfolding parse_body
  next_of-body mt pos =
      ground (arith, next_of-order mt pos, next_of-modify mt pos, next_of-system mt pos)

  pub next_of-parse_one :
      (off : ℕ) → off < r.len → next_of (parse_one r off) ≡ some (body_end r (byte r off) (off + 1))
  unfolding parse_one
  next_of-parse_one off h =
      rw (le→leb_false r.len off h, at-byte r off h) (next_of-body (byte r off) (off + 1))

  -- A record takes a byte at least and ends inside of the mapping.
  pub body_end_bounds : (mt pos n : ℕ) → body_end r mt pos ≡ some n → (pos ≤ n) × (n ≤ r.len)
  body_end_bounds mt pos n h = ground arith

-- An answer that is not a panic, with the equation.
pub next_of-some :
    (a : Reply (ItchMessage × ℕ)) (n : ℕ)
    → next_of a ≡ some (some n)
    → (m : ItchMessage) × (a ≡ ok (m, n))
next_of-some (ok (m, k)) n h = (m, cc)
next_of-some (err e) n h = cc
next_of-some panic n h = cc

pub next_of-none :
    (a : Reply (ItchMessage × ℕ)) → next_of a ≡ some none → (e : ItchError) × (a ≡ err e)
next_of-none (ok (m, k)) h = cc
next_of-none (err e) h = (e, refl)
next_of-none panic h = cc
