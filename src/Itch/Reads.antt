-- ===== src/Itch/Reads.antt =====
-- The reads of a field: inside of the mapping each gives the bytes that stand there, and none
-- panics.
use spark_trade_mft_raw_data.Prelude.{
  ℕ, zero, suc, ◌+◌, ◌≤◌, ◌<◌, ◌≡◌, ap, refl, none, some, List, [], ◌∷◌, arith, length, get_elem?,
  get_or, take, drop, le→ltb_false, lt→ltb,
}
use spark_trade_mft_raw_data.Prelude.Word.{uint64, int64}
use spark_trade_mft_raw_data.Itch.{ReaderAt, ok, at, u64, i64, symbol, symbol_loop}

get_elem?-get_or : (xs : List ℕ) (i : ℕ) → i < length xs → get_elem? xs i ≡ some (get_or xs i 0)
get_elem?-get_or [] i h = elim h [ ]
get_elem?-get_or (x ∷ xs) zero h = refl
get_elem?-get_or (x ∷ xs) (suc i) h = get_elem?-get_or xs i (omega arith)

take-suc-drop :
    (xs : List ℕ) (off n : ℕ)
    → off < length xs
    → take (suc n) (drop off xs) ≡ get_or xs off 0 ∷ take n (drop (suc off) xs)
take-suc-drop [] off n h = elim h [ ]
take-suc-drop (x ∷ xs) zero n h = refl
take-suc-drop (x ∷ xs) (suc off) n h = take-suc-drop xs off n (omega arith)

module _ (r : ReaderAt) where
  abbrev pub byte : ℕ → ℕ
  byte i = get_or r.contents i 0

  pub at-byte : (i : ℕ) → i < r.len → at r i ≡ ok (byte i)
  unfolding at
  at-byte i h = ground (arith, r.at_lem i, get_elem?-get_or r.contents i (omega (arith, r.len_lem)))

  abbrev pub word : ℕ → ℕ
  word i =
      uint64 (byte i) (byte (i + 1)) (byte (i + 2)) (byte (i + 3)) (byte (i + 4)) (byte (i + 5))
        (byte (i + 6)) (byte (i + 7))

  pub u64-word : (off : ℕ) → off + 8 ≤ r.len → u64 r off ≡ ok (some (word off))
  unfolding u64
  u64-word off h = rw (
    le→ltb_false r.len (off + 8) h,
    at-byte off (omega arith),
    at-byte (off + 1) (omega arith),
    at-byte (off + 2) (omega arith),
    at-byte (off + 3) (omega arith),
    at-byte (off + 4) (omega arith),
    at-byte (off + 5) (omega arith),
    at-byte (off + 6) (omega arith),
    at-byte (off + 7) (omega arith),
  )

  pub u64_short : (off : ℕ) → r.len < off + 8 → u64 r off ≡ ok none
  unfolding u64
  u64_short off h = rw (lt→ltb r.len (off + 8) h)

  pub i64-word : (off : ℕ) → off + 8 ≤ r.len → i64 r off ≡ ok (some (int64 (word off)))
  unfolding i64
  i64-word off h = rw (u64-word off h)

  pub i64_short : (off : ℕ) → r.len < off + 8 → i64 r off ≡ ok none
  unfolding i64
  i64_short off h = rw (u64_short off h)

  symbol_loop-take :
      (n off : ℕ) → off + n ≤ r.len → symbol_loop r n off ≡ ok (take n (drop off r.contents))
  unfolding symbol_loop
  symbol_loop-take zero off h = refl
  symbol_loop-take (suc n) off h = rw (
    at-byte off (omega arith),
    symbol_loop-take n (off + 1) (omega arith),
    take-suc-drop r.contents off n (omega (arith, r.len_lem)),
    ap (λ (k : ℕ). drop k r.contents) (let e : off + 1 ≡ suc off = omega arith in e),
  )

  pub symbol-take :
      (off n : ℕ) → off + n ≤ r.len → symbol r off n ≡ ok (some (take n (drop off r.contents)))
  unfolding symbol
  symbol-take off n h = rw (le→ltb_false r.len (off + n) h, symbol_loop-take n off h)

  pub symbol_short : (off n : ℕ) → r.len < off + n → symbol r off n ≡ ok none
  unfolding symbol
  symbol_short off n h = rw (lt→ltb r.len (off + n) h)
