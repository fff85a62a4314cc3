-- ===== src/Itch/Layouts.antt =====
-- The record layouts of pkg/parser/itch_mmap.go, written out as bytes, and the parser on one.
use spark_trade_mft_raw_data.Prelude.{
  ℕ, ◌+◌, ◌≤◌, ◌<◌, ◌≡◌, refl, ap, sym, ◌∙◌, le→leb_false, some, ◌⊎◌, List, [], ◌∷◌, ◌++◌,
  append_assoc, arith, length, length-append, length-drop, get_or, get_or-drop, drop-append,
  take-append, take, drop-drop, drop,
}
use spark_trade_mft_raw_data.Prelude.Int.{ℤ}
use spark_trade_mft_raw_data.Prelude.Word.{
  IsU64, uint64, IsInt64, put_uint64, from_int64, uint64-put, int64-from_int64, from_int64-IsU64,
}
use spark_trade_mft_raw_data.Itch.{
  ReaderAt, ItchMessage, ok, u64, i64, at, symbol, byte_at, Field, side_field, sym_len_field,
  code_field, parse_order, parse_modify, parse_system,
}
use spark_trade_mft_raw_data.Itch.Reads.{byte, word, at-byte, u64-word, symbol-take}

-- A record of the format; an order's `mt` is 'A' or 'T', and `ts` a signed field.
pub data Rec : Type 0 where
  order : (mt id : ℕ) (ts : ℤ) (side price qty : ℕ) (symbol : List ℕ) → Rec
  modify : (id : ℕ) (ts : ℤ) (price qty : ℕ) (symbol : List ℕ) → Rec
  system : (ts : ℤ) (code : ℕ) → Rec

abbrev pub layout : Rec → List ℕ
layout (order mt id ts side price qty sym) =
    mt
    ∷ (put_uint64 id
        ++ (put_uint64 (from_int64 ts)
            ++ (side ∷ (put_uint64 price ++ (put_uint64 qty ++ (length sym ∷ sym))))))
layout (modify id ts price qty sym) =
    b'M'
    ∷ (put_uint64 id
        ++ (put_uint64 (from_int64 ts)
            ++ (put_uint64 price ++ (put_uint64 qty ++ (length sym ∷ sym)))))
layout (system ts code) = b'S' ∷ (put_uint64 (from_int64 ts) ++ (code ∷ []))

abbrev pub message : Rec → ItchMessage
message (order mt id ts side price qty sym) = record {
  kind = mt;
  order_id = id;
  ts = ts;
  side = side;
  price = price;
  quantity = qty;
  symbol = sym;
  code = 0;
}
message (modify id ts price qty sym) = record {
  kind = b'M';
  order_id = id;
  ts = ts;
  side = 0;
  price = price;
  quantity = qty;
  symbol = sym;
  code = 0;
}
message (system ts code) = record {
  kind = b'S';
  order_id = 0;
  ts = ts;
  side = 0;
  price = 0;
  quantity = 0;
  symbol = [];
  code = code;
}

-- The fields fit their places.
abbrev pub IsRec : Rec → Type 0
IsRec (order mt id ts side price qty sym) =
    ((mt ≡ b'A') ⊎ (mt ≡ b'T')) × IsU64 id × IsInt64 ts × IsU64 price × IsU64 qty
IsRec (modify id ts price qty sym) = IsU64 id × IsInt64 ts × IsU64 price × IsU64 qty
IsRec (system ts code) = IsInt64 ts

-- The bytes of a file of records.
abbrev pub layouts : List Rec → List ℕ
layouts [] = []
layouts (rec ∷ recs) = layout rec ++ layouts recs

pub layout-head : (rec : Rec) → layout rec ≡ get_or (layout rec) 0 0 ∷ drop 1 (layout rec)
layout-head (order k id ts side price qty sy) = refl
layout-head (modify id ts price qty sy) = refl
layout-head (system ts code) = refl

module _ (r : ReaderAt) where
  byte-at : (off k : ℕ) (s : List ℕ) → drop off r.contents ≡ s → byte r (off + k) ≡ get_or s k 0
  byte-at off k s e = sym (get_or-drop off k r.contents 0) ∙ ap (λ t. get_or t k 0) e

  room : (off : ℕ) (s : List ℕ) → drop off r.contents ≡ s → 0 < length s → off + length s ≡ r.len
  room off s e h = omega (arith, r.len_lem, length-drop off r.contents, ap (length {A = ℕ}) e)

  abbrev word_of : List ℕ → ℕ
  word_of s =
      uint64 (get_or s 0 0) (get_or s 1 0) (get_or s 2 0) (get_or s 3 0) (get_or s 4 0)
        (get_or s 5 0) (get_or s 6 0) (get_or s 7 0)

  word-word_of : (off : ℕ) (s : List ℕ) → drop off r.contents ≡ s → word r off ≡ word_of s
  word-word_of off s e = cc (
    ap (byte r) (let p : off ≡ off + 0 = omega arith in p),
    byte-at off 0 s e,
    byte-at off 1 s e,
    byte-at off 2 s e,
    byte-at off 3 s e,
    byte-at off 4 s e,
    byte-at off 5 s e,
    byte-at off 6 s e,
    byte-at off 7 s e,
  )

  u64-at :
      (off v : ℕ) (rest : List ℕ)
      → IsU64 v
      → drop off r.contents ≡ put_uint64 v ++ rest
      → (u64 r off ≡ ok (some v)) × (drop (off + 8) r.contents ≡ rest)
  unfolding put_uint64
  u64-at off v rest h e = (
    u64-word r off (omega (arith, room off _ e (omega arith)))
        ∙ ap (λ k. ok (some k)) (word-word_of off _ e ∙ uint64-put v h),
    sym (drop-drop off 8 r.contents) ∙ ap (drop 8) e,
  )

  i64-at :
      (off : ℕ) (v : ℤ) (rest : List ℕ)
      → IsInt64 v
      → drop off r.contents ≡ put_uint64 (from_int64 v) ++ rest
      → (i64 r off ≡ ok (some v)) × (drop (off + 8) r.contents ≡ rest)
  unfolding i64
  i64-at off v rest h e =
      let u = u64-at off (from_int64 v) rest (from_int64-IsU64 v h) e in
      (rw (u.0, int64-from_int64 v h), u.1)

  pub at-at :
      (off b : ℕ) (rest : List ℕ)
      → drop off r.contents ≡ b ∷ rest
      → (at r off ≡ ok b) × (drop (off + 1) r.contents ≡ rest) × (off + 1 ≤ r.len)
  at-at off b rest e =
      let inside : off + 1 ≤ r.len = omega (arith, room off _ e (omega arith)) in
      (
        at-byte r off (omega arith)
            ∙ ap ok (ap (byte r) (let p : off ≡ off + 0 = omega arith in p) ∙ byte-at off 0 _ e),
        sym (drop-drop off 1 r.contents) ∙ ap (drop 1) e,
        inside,
      )

  byte_at-at :
      (f : Field) (off b : ℕ) (rest : List ℕ)
      → drop off r.contents ≡ b ∷ rest
      → (byte_at r f off ≡ ok b) × (drop (off + 1) r.contents ≡ rest) × (off + 1 ≤ r.len)
  unfolding byte_at
  byte_at-at f off b rest e =
      let a = at-at off b rest e in (rw (le→leb_false r.len off (omega (arith, a.2))) a.0, a.1, a.2)

  symbol-at :
      (off : ℕ) (s rest : List ℕ)
      → off ≤ r.len
      → drop off r.contents ≡ s ++ rest
      → (symbol r off (length s) ≡ ok (some s)) × (drop (off + length s) r.contents ≡ rest)
  symbol-at off s rest h e = (
    symbol-take r off (length s) (
          omega (
            arith,
            r.len_lem,
            length-drop off r.contents,
            ap (length {A = ℕ}) e,
            length-append s rest,
          ))
        ∙ ap (λ t. ok (some t)) (ap (take (length s)) e ∙ take-append s rest),
    sym (drop-drop off (length s) r.contents) ∙ ap (drop (length s)) e ∙ drop-append s rest,
  )

  pub order-at :
      (mt id : ℕ) (ts : ℤ) (side price qty : ℕ) (sy rest : List ℕ) (pos : ℕ)
      → IsRec (order mt id ts side price qty sy)
      → drop pos r.contents ≡ drop 1 (layout (order mt id ts side price qty sy)) ++ rest
      → (next : ℕ) × (parse_order r mt pos ≡ ok (message (order mt id ts side price qty sy), next))
        × (drop next r.contents ≡ rest)
  unfolding parse_order
  order-at mt id ts side price qty sy rest pos (_, h1, h2, h3, h4) e =
      let a = u64-at pos id _ h1 (e ∙ append_assoc (put_uint64 id) _ rest) in
      let b = i64-at (pos + 8) ts _ h2 (a.1 ∙ append_assoc (put_uint64 (from_int64 ts)) _ rest) in
      let c = byte_at-at side_field (pos + 8 + 8) side _ b.1 in
      let d = u64-at (pos + 8 + 8 + 1) price _ h3 (c.1 ∙ append_assoc (put_uint64 price) _ rest) in
      let f = u64-at (pos + 8 + 8 + 1 + 8) qty _ h4 (d.1 ∙ append_assoc (put_uint64 qty) _ rest) in
      let g = byte_at-at sym_len_field (pos + 8 + 8 + 1 + 8 + 8) (length sy) _ f.1 in
      let s = symbol-at (pos + 8 + 8 + 1 + 8 + 8 + 1) sy rest g.2 g.1 in
      (_, rw (a.0, b.0, c.0, d.0, f.0, g.0, s.0), s.1)

  pub modify-at :
      (id : ℕ) (ts : ℤ) (price qty : ℕ) (sy rest : List ℕ) (pos : ℕ)
      → IsRec (modify id ts price qty sy)
      → drop pos r.contents ≡ drop 1 (layout (modify id ts price qty sy)) ++ rest
      → (next : ℕ) × (parse_modify r b'M' pos ≡ ok (message (modify id ts price qty sy), next))
        × (drop next r.contents ≡ rest)
  unfolding parse_modify
  modify-at id ts price qty sy rest pos (h1, h2, h3, h4) e =
      let a = u64-at pos id _ h1 (e ∙ append_assoc (put_uint64 id) _ rest) in
      let b = i64-at (pos + 8) ts _ h2 (a.1 ∙ append_assoc (put_uint64 (from_int64 ts)) _ rest) in
      let d = u64-at (pos + 8 + 8) price _ h3 (b.1 ∙ append_assoc (put_uint64 price) _ rest) in
      let f = u64-at (pos + 8 + 8 + 8) qty _ h4 (d.1 ∙ append_assoc (put_uint64 qty) _ rest) in
      let g = byte_at-at sym_len_field (pos + 8 + 8 + 8 + 8) (length sy) _ f.1 in
      let s = symbol-at (pos + 8 + 8 + 8 + 8 + 1) sy rest g.2 g.1 in
      (_, rw (a.0, b.0, d.0, f.0, g.0, s.0), s.1)

  pub system-at :
      (ts : ℤ) (code : ℕ) (rest : List ℕ) (pos : ℕ)
      → IsRec (system ts code)
      → drop pos r.contents ≡ drop 1 (layout (system ts code)) ++ rest
      → (next : ℕ) × (parse_system r b'S' pos ≡ ok (message (system ts code), next))
        × (drop next r.contents ≡ rest)
  unfolding parse_system
  system-at ts code rest pos h e =
      let a = i64-at pos ts _ h (e ∙ append_assoc (put_uint64 (from_int64 ts)) _ rest) in
      let g = byte_at-at code_field (pos + 8) code _ a.1 in (_, rw (a.0, g.0), g.1)
