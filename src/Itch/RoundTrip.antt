-- ===== src/Itch/RoundTrip.antt =====
-- `parse_all` of pkg/parser/itch_mmap.go on a file of laid out records.
use spark_trade_mft_raw_data.Prelude.{
  ℕ, zero, suc, ◌+◌, ◌≤◌, ◌<◌, ◌≡◌, ap, ◌∙◌, true, le→leb_false, le→ltb_false, none, ◌⊎◌, List, [],
  ◌∷◌, ◌++◌, map, append_assoc, append-nil, arith, ltb, lt→ltb, length, length-append, length-drop,
  get_or, drop, All,
}
use spark_trade_mft_raw_data.Itch.{
  ReaderAt, ItchMessage, ok, returned, parse_order, parse_body, parse_one, parse_all_loop,
  parse_all,
}
use spark_trade_mft_raw_data.Itch.Layouts.{
  Rec, order, modify, system, layout, message, IsRec, layouts, layout-head, at-at, order-at,
  modify-at, system-at,
}

module _ (r : ReaderAt) where
  parse_body-order :
      (mt pos : ℕ) → (mt ≡ b'A') ⊎ (mt ≡ b'T') → parse_body r mt pos ≡ parse_order r mt pos
  unfolding parse_body
  parse_body-order mt pos h = ground arith

  body-at :
      (rec : Rec) (rest : List ℕ) (pos : ℕ)
      → IsRec rec
      → drop pos r.contents ≡ drop 1 (layout rec) ++ rest
      → (next : ℕ) × (parse_body r (get_or (layout rec) 0 0) pos ≡ ok (message rec, next))
        × (drop next r.contents ≡ rest)
  body-at (order k id ts side price qty sy) rest pos h e =
      let p = order-at r k id ts side price qty sy rest pos h e in
      (p.0, parse_body-order k pos h.0 ∙ p.1, p.2)
  body-at (modify id ts price qty sy) rest pos h e =
      let p = modify-at r id ts price qty sy rest pos h e in (p.0, (unfold parse_body in p.1), p.2)
  body-at (system ts code) rest pos h e =
      let p = system-at r ts code rest pos h e in (p.0, (unfold parse_body in p.1), p.2)

  one-at :
      (rec : Rec) (rest : List ℕ) (off : ℕ)
      → IsRec rec
      → drop off r.contents ≡ layout rec ++ rest
      → (next : ℕ) × (parse_one r off ≡ ok (message rec, next))
        × (drop next r.contents ≡ rest)
        × (ltb off r.len ≡ true)
  unfolding parse_one
  one-at rec rest off h e =
      let a =
        at-at r off (get_or (layout rec) 0 0) (drop 1 (layout rec) ++ rest)
          (e ∙ ap (λ t. t ++ rest) (layout-head rec)) in
      let p = body-at rec rest (off + 1) h a.1 in
      (
        p.0,
        rw (le→leb_false r.len off (omega (arith, a.2)), a.0) p.1,
        p.2,
        lt→ltb off r.len (omega (arith, a.2)),
      )

  layouts-at :
      (recs : List Rec) (fuel off : ℕ) (out : List ItchMessage)
      → All IsRec recs
      → length recs < fuel
      → drop off r.contents ≡ layouts recs
      → parse_all_loop r fuel off out ≡ returned (out ++ map message recs) none
  unfolding parse_all_loop
  layouts-at recs zero off out h k e = absurd (omega arith)
  layouts-at [] (suc fuel) off out h k e = rw (
    le→ltb_false off r.len
        (omega (arith, r.len_lem, length-drop off r.contents, ap (length {A = ℕ}) e)),
    parse_all_loop,
    append-nil,
  )
  layouts-at (rec ∷ recs) (suc fuel) off out (h, hs) k e =
      let p = one-at rec (layouts recs) off h e in
      rw (p.3, parse_all_loop, p.1)
        (layouts-at recs fuel p.0 (out ++ (message rec ∷ [])) hs (omega arith) p.2
          ∙ ap (λ t. returned t none) (append_assoc out (message rec ∷ []) (map message recs)))

length-layouts : (recs : List Rec) → length recs ≤ length (layouts recs)
length-layouts [] = omega arith
length-layouts (rec ∷ recs) = omega (
  arith,
  length-layouts recs,
  length-append (layout rec) (layouts recs),
  ap (length {A = ℕ}) (layout-head rec),
)

-- A file that holds the layouts of records, one behind the other, parses to their messages, with
-- no error.
pub parse_all-layouts :
    (r : ReaderAt) (recs : List Rec)
    → All IsRec recs
    → r.contents ≡ layouts recs
    → parse_all r ≡ returned (map message recs) none
unfolding parse_all
parse_all-layouts r recs h e =
    layouts-at r recs (r.len + 1) 0 [] h
      (omega (arith, r.len_lem, ap (length {A = ℕ}) e, length-layouts recs)) e
