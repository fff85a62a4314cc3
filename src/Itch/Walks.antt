-- ===== src/Itch/Walks.antt =====
-- `parse_all` and `count_all` walk the whole mapping: they return on every input, and agree.
use spark_trade_mft_raw_data.Prelude.{
  ℕ, zero, suc, ◌+◌, ◌≤◌, ◌<◌, ◌≡◌, ap, ◌∙◌, true, Option, none, some, ◌⊎◌, inl, inr, List, [], ◌∷◌,
  ◌++◌, append-nil, append_assoc, arith, ltb, ltb→lt, Bool-cases, Option-cases, length,
}
use spark_trade_mft_raw_data.Itch.{
  ReaderAt, ItchError, ItchMessage, Walk, ok, err, returned, parse_one, parse_all_loop,
  count_all_loop, parse_all, count_all,
}
use spark_trade_mft_raw_data.Itch.Reads.{byte}
use spark_trade_mft_raw_data.Itch.Records.{
  body_end, next_of-parse_one, body_end_bounds, next_of-some, next_of-none,
}

-- One round inside of the mapping: a record that ends further on, or an error.
pub parse_one_cases :
    (r : ReaderAt) (off : ℕ)
    → off < r.len
    → ((m : ItchMessage) × (n : ℕ) × (parse_one r off ≡ ok (m, n))
        × (off < n)
        × (n ≤ r.len)
        × (body_end r (byte r off) (off + 1) ≡ some n))
      ⊎ ((e : ItchError) × (parse_one r off ≡ err e) × (body_end r (byte r off) (off + 1) ≡ none))
parse_one_cases r off h = elim (Option-cases (body_end r (byte r off) (off + 1))) [
  | inl e ↦
      let p = next_of-none (parse_one r off) (rw (next_of-parse_one r off h, e)) in
      inr (p.0, p.1, e)
  | inr (n, e) ↦
      let p = next_of-some (parse_one r off) n (rw (next_of-parse_one r off h, e)) in
      let b = body_end_bounds r (byte r off) (off + 1) n e in
      inl (p.0, n, p.1, omega (arith, b.0), b.1, e)
]

abbrev Walked : Walk (List ItchMessage) → Walk ℕ → List ItchMessage → ℕ → Type 0
Walked w c out count =
    (ms : List ItchMessage) × (e : Option ItchError) × (w ≡ returned (out ++ ms) e)
    × (c ≡ returned (count + length ms) e)

module _ (r : ReaderAt) (fuel off : ℕ) {m : ItchMessage} {n : ℕ} (inside : ltb off r.len ≡ true)
    (e : parse_one r off ≡ ok (m, n)) where
  parse_all_loop-next :
      (out : List ItchMessage)
      → parse_all_loop r (suc fuel) off out ≡ parse_all_loop r fuel n (out ++ (m ∷ []))
  unfolding parse_all_loop
  parse_all_loop-next out = rw (inside, parse_all_loop, e)

  pub count_all_loop-next :
      (count : ℕ) → count_all_loop r (suc fuel) off count ≡ count_all_loop r fuel n (count + 1)
  unfolding count_all_loop
  count_all_loop-next count = rw (inside, count_all_loop, e)

Walked-next :
    (w : Walk (List ItchMessage)) (c : Walk ℕ) (out : List ItchMessage) (count : ℕ)
    (m : ItchMessage)
    → Walked w c (out ++ (m ∷ [])) (count + 1)
    → Walked w c out count
Walked-next w c out count m (ms, e, p, q) =
    (m ∷ ms, e, p ∙ rw append_assoc, q ∙ ap (λ k. returned k e) (omega arith))

walk_loops :
    (r : ReaderAt) (fuel off : ℕ) (out : List ItchMessage) (count : ℕ)
    → r.len < off + fuel
    → off ≤ r.len
    → Walked (parse_all_loop r fuel off out) (count_all_loop r fuel off count) out count
unfolding parse_all_loop count_all_loop
walk_loops r zero off out count h k = absurd (omega arith)
walk_loops r (suc fuel) off out count h k = elim (Bool-cases (ltb off r.len)) [
  | inl more ↦ elim (parse_one_cases r off (ltb→lt _ _ more)) [
    | inl (m, n, e, lo, hi, _) ↦
        rw (parse_all_loop-next r fuel off more e out, count_all_loop-next r fuel off more e count)
          (Walked-next _ _ out count m
            (walk_loops r fuel n (out ++ (m ∷ [])) (count + 1) (omega arith) hi))
    | inr (x, e, _) ↦ (
      [],
      some x,
      rw (more, parse_all_loop, e, append-nil),
      rw (more, count_all_loop, e) (ap (λ k. returned k (some x)) (omega arith)),
    )
  ]
  | inr done ↦ (
    [],
    none,
    rw (done, parse_all_loop, append-nil),
    rw (done, count_all_loop) (ap (λ k. returned k none) (omega arith)),
  )
]

-- On every file the walk returns: no read leaves the mapping and the fuel suffices. `CountAll`
-- counts the messages that `ParseAll` returns and has the same error.
pub parse_all_total :
    (r : ReaderAt)
    → (ms : List ItchMessage) × (e : Option ItchError) × (parse_all r ≡ returned ms e)
      × (count_all r ≡ returned (length ms) e)
unfolding parse_all count_all
parse_all_total r =
    let w = walk_loops r (r.len + 1) 0 [] 0 (omega arith) (omega arith) in
    (w.0, w.1, w.2, rw w.3 (ap (λ k. returned k w.1) (omega arith)))
