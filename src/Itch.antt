-- ===== src/Itch.antt =====
-- pkg/parser/itch_mmap.go: the zero-copy parser of ITCH-like records over a memory-mapped file,
-- and the buffered reader of the same format. A method that fails returns `err`; `panic` is the
-- Go panic of a read outside of the mapping.
pub mod Bufio
mod Reads
pub mod Records
pub mod Walks
pub mod Agreement
pub mod Layouts
pub mod RoundTrip
use spark_trade_mft_raw_data.Prelude.{
  ℕ, zero, suc, ◌+◌, ◌≡◌, Bool, true, false, ◌||◌, Option, none, some, List, [], ◌∷◌, ◌++◌, ltb,
  leb, ◌==◌, if◌then◌else◌, length, get_elem?,
}
use spark_trade_mft_raw_data.Prelude.Word.{uint64, int64}
use spark_trade_mft_raw_data.Prelude.Int.{ℤ}

-- mmap.ReaderAt of golang.org/x/exp, which is not part of the repository: `at` is `At`, `none` its
-- panic. It gives the bytes of the mapped file.
pub record ReaderAt : Type 0 where
  pub contents : List ℕ
  pub len : ℕ
  pub at : ℕ → Option ℕ
  pub len_lem : len ≡ length contents
  pub at_lem : (i : ℕ) → at i ≡ get_elem? contents i

pub data Field : Type 0 where
  type_field id_field ts_field side_field price_field qty_field : Field
  sym_len_field sym_field code_field : Field

pub data ItchError : Type 0 where
  truncated : Field → ItchError
  unknown_type : ℕ → ItchError

pub data Reply {ℓ} (A : Type ℓ) : Type ℓ where
  ok : A → Reply A
  err : ItchError → Reply A
  panic : Reply A

infixl 5 ◌>>=◌
abbrev pub ◌>>=◌ {ℓ κ} : {A : Type ℓ} {B : Type κ} → Reply A → (A → Reply B) → Reply B
ok a >>= f = f a
err e >>= f = err e
panic >>= f = panic

-- ITCHMessage
pub record ItchMessage : Type 0 where
  pub kind : ℕ  -- Type: 'A' | 'T' | 'M' | 'S'
  pub order_id : ℕ
  pub ts : ℤ
  pub side : ℕ
  pub price : ℕ
  pub quantity : ℕ
  pub symbol : List ℕ
  pub code : ℕ

-- `if !ok { return m, off, fmt.Errorf("truncated: …") }`
abbrev pub require {ℓ} : {A : Type ℓ} → Field → Option A → Reply A
require f none = err (truncated f)
require f (some v) = ok v

module _ (r : ReaderAt) where
  pub at : ℕ → Reply ℕ
  at i = elim (r.at i) [ none ↦ panic | some b ↦ ok b ]

  -- The bytes are disjoint, so Go's `<<` and `|` are a sum.
  pub u64 : ℕ → Reply (Option ℕ)
  u64 off = if ltb r.len (off + 8) then ok none else do
    a ← at off
    b ← at (off + 1)
    c ← at (off + 2)
    d ← at (off + 3)
    e ← at (off + 4)
    f ← at (off + 5)
    g ← at (off + 6)
    h ← at (off + 7)
    ok (some (uint64 a b c d e f g h))

  pub i64 : ℕ → Reply (Option ℤ)
  i64 off = do u ← u64 off; ok (elim u [ none ↦ none | some v ↦ some (int64 v) ])

  pub symbol_loop : ℕ → ℕ → Reply (List ℕ)
  symbol_loop zero off = ok []
  symbol_loop (suc n) off = do b ← at off; bs ← symbol_loop n (off + 1); ok (b ∷ bs)

  pub symbol : ℕ → ℕ → Reply (Option (List ℕ))
  symbol off sym_len =
      if ltb r.len (off + sym_len) then ok none else do bs ← symbol_loop sym_len off; ok (some bs)

  -- `if pos >= n { … }; p.data.At(pos)`
  pub byte_at : Field → ℕ → Reply ℕ
  byte_at f pos = if leb r.len pos then err (truncated f) else at pos

  -- case 'A', 'T'; the message built so far and the old offset, which Go returns with an error,
  -- are used by no caller.
  pub parse_order : ℕ → ℕ → Reply (ItchMessage × ℕ)
  parse_order mt pos = do
    u ← u64 pos
    id ← require id_field u
    t ← i64 (pos + 8)
    ts ← require ts_field t
    side ← byte_at side_field (pos + 8 + 8)
    p ← u64 (pos + 8 + 8 + 1)
    price ← require price_field p
    q ← u64 (pos + 8 + 8 + 1 + 8)
    quantity ← require qty_field q
    sym_len ← byte_at sym_len_field (pos + 8 + 8 + 1 + 8 + 8)
    s ← symbol (pos + 8 + 8 + 1 + 8 + 8 + 1) sym_len
    sym ← require sym_field s
    ok (
      record {
        kind = mt;
        order_id = id;
        ts = ts;
        side = side;
        price = price;
        quantity = quantity;
        symbol = sym;
        code = 0;
      },
      pos + 8 + 8 + 1 + 8 + 8 + 1 + sym_len,
    )

  -- case 'M'
  pub parse_modify : ℕ → ℕ → Reply (ItchMessage × ℕ)
  parse_modify mt pos = do
    u ← u64 pos
    id ← require id_field u
    t ← i64 (pos + 8)
    ts ← require ts_field t
    p ← u64 (pos + 8 + 8)
    price ← require price_field p
    q ← u64 (pos + 8 + 8 + 8)
    quantity ← require qty_field q
    sym_len ← byte_at sym_len_field (pos + 8 + 8 + 8 + 8)
    s ← symbol (pos + 8 + 8 + 8 + 8 + 1) sym_len
    sym ← require sym_field s
    ok (
      record {
        kind = mt;
        order_id = id;
        ts = ts;
        side = 0;
        price = price;
        quantity = quantity;
        symbol = sym;
        code = 0;
      },
      pos + 8 + 8 + 8 + 8 + 1 + sym_len,
    )

  -- case 'S'
  pub parse_system : ℕ → ℕ → Reply (ItchMessage × ℕ)
  parse_system mt pos = do
    t ← i64 pos
    ts ← require ts_field t
    code ← byte_at code_field (pos + 8)
    ok (
      record {
        kind = mt;
        order_id = 0;
        ts = ts;
        side = 0;
        price = 0;
        quantity = 0;
        symbol = [];
        code = code;
      },
      pos + 8 + 1,
    )

  -- the switch of parseOne
  pub parse_body : ℕ → ℕ → Reply (ItchMessage × ℕ)
  parse_body mt pos =
      if (mt == b'A') || (mt == b'T')
      then parse_order mt pos
      else if mt == b'M'
      then parse_modify mt pos
      else if mt == b'S'
      then parse_system mt pos
      else err (unknown_type mt)

  pub parse_one : ℕ → Reply (ItchMessage × ℕ)
  unfolding parse_body
  parse_one off =
      if leb r.len off then err (truncated type_field) else do mt ← at off; parse_body mt (off + 1)

-- What a walk over the whole input returns: a value and an error. `stuck` is fuel run out.
pub data Walk {ℓ} (A : Type ℓ) : Type ℓ where
  returned : A → Option ItchError → Walk A
  panicked : Walk A
  stuck : Walk A

module _ (r : ReaderAt) where
  pub parse_all_loop : ℕ → ℕ → List ItchMessage → Walk (List ItchMessage)
  parse_all_loop zero off out = stuck
  parse_all_loop (suc fuel) off out = elim (ltb off r.len) [
    | false ↦ returned out none
    | true ↦ elim (parse_one r off) [
      | ok (msg, next) ↦ parse_all_loop fuel next (out ++ (msg ∷ []))
      | err e ↦ returned out (some e)
      | panic ↦ panicked
    ]
  ]

  pub count_all_loop : ℕ → ℕ → ℕ → Walk ℕ
  count_all_loop zero off count = stuck
  count_all_loop (suc fuel) off count = elim (ltb off r.len) [
    | false ↦ returned count none
    | true ↦ elim (parse_one r off) [
      | ok (msg, next) ↦ count_all_loop fuel next (count + 1)
      | err e ↦ returned count (some e)
      | panic ↦ panicked
    ]
  ]

  -- A record takes a byte at least, so one round more than there are bytes is enough fuel.
  pub parse_all : Walk (List ItchMessage)
  parse_all = parse_all_loop (r.len + 1) 0 []

  pub count_all : Walk ℕ
  count_all = count_all_loop (r.len + 1) 0 0
