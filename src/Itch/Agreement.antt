-- ===== src/Itch/Agreement.antt =====
-- The memory-mapped and the buffered reader count the same records and fail on the same files.
use spark_trade_mft_raw_data.Prelude.{
  ℕ, zero, suc, ◌+◌, ◌≤◌, ◌<◌, ◌≡◌, refl, ap, sym, ◌∙◌, Bool, true, false, Option, none, some, inl,
  inr, List, [], ◌∷◌, arith, ltb, leb, if◌then◌else◌, ltb→lt, Bool-cases, length, get_or, drop,
  take, length-drop, drop-drop, drop-get_or, drop_all, get_or-drop,
}
use spark_trade_mft_raw_data.Itch.{
  ReaderAt, Walk, returned, stuck, panicked, count_all_loop, count_all,
}
use spark_trade_mft_raw_data.Itch.Bufio.{
  Step, Count, BufioError, next, fail, counted, skip_system, skip_body, skip_record,
  count_stream_loop, count_stream,
}
use spark_trade_mft_raw_data.Itch.Reads.{byte}
use spark_trade_mft_raw_data.Itch.Records.{symbol_end, body_end}
use spark_trade_mft_raw_data.Itch.Walks.{parse_all_total, parse_one_cases}

-- The count, and whether there was an error.
abbrev pub is_some {ℓ} : {A : Type ℓ} → Option A → Bool
is_some none = false
is_some (some e) = true

abbrev pub of_walk : Walk ℕ → Option (ℕ × Bool)
of_walk (returned n e) = some (n, is_some e)
of_walk panicked = none
of_walk stuck = none

abbrev pub of_count : Count → Option (ℕ × Bool)
of_count (counted n e) = some (n, is_some e)
of_count Count.stuck = none

abbrev step_rest : Step → Option (List ℕ)
step_rest (next s) = some s
step_rest (fail e) = none

get_or-take : (xs : List ℕ) (n i : ℕ) → i < n → get_or (take n xs) i 0 ≡ get_or xs i 0
get_or-take xs zero i h = elim h [ ]
get_or-take [] (suc n) i h = refl
get_or-take (x ∷ xs) (suc n) zero h = refl
get_or-take (x ∷ xs) (suc n) (suc i) h = get_or-take xs n i (omega arith)

abbrev rest_at : ReaderAt → Option ℕ → Option (List ℕ)
rest_at r none = none
rest_at r (some n) = some (drop n r.contents)

module _ (r : ReaderAt) (pos : ℕ) (h : pos ≤ r.len) where
  -- the stream behind a body of `n + 1` bytes at `pos` and its symbol
  step_rest-body :
      (n : ℕ)
      → step_rest (skip_body (suc n) n (drop pos r.contents)) ≡ rest_at r (symbol_end r pos n)
  unfolding skip_body
  step_rest-body n = ground (
    arith,
    r.len_lem,
    length-drop pos r.contents,
    length-drop (suc n) (drop pos r.contents),
    get_or-take (drop pos r.contents) (suc n) n,
    get_or-drop pos n r.contents 0,
    drop-drop pos (suc n) r.contents,
    drop-drop (pos + suc n) (byte r (pos + n)) r.contents,
  )

  step_rest-system :
      step_rest (skip_system (drop pos r.contents))
      ≡ rest_at r (if leb (pos + 9) r.len then some (pos + 9) else none)
  unfolding skip_system
  step_rest-system =
      ground (arith, r.len_lem, length-drop pos r.contents, drop-drop pos 9 r.contents)

  -- the stream behind the record of type `mt` whose body stands at `pos`
  step_rest-skip :
      (mt : ℕ) → step_rest (skip_record mt (drop pos r.contents)) ≡ rest_at r (body_end r mt pos)
  unfolding skip_record
  step_rest-skip mt = ground (arith, step_rest-body 33, step_rest-body 32, step_rest-system)

skip_some : (s : Step) {rest : List ℕ} → step_rest s ≡ some rest → s ≡ next rest
skip_some (next s) h = cc
skip_some (fail e) h = cc

skip_none : (s : Step) → step_rest s ≡ none → (e : BufioError) × (s ≡ fail e)
skip_none (next s) h = cc
skip_none (fail e) h = (e, refl)

drop-byte :
    (r : ReaderAt) (off : ℕ)
    → off < r.len
    → drop off r.contents ≡ byte r off ∷ drop (off + 1) r.contents
drop-byte r off h =
    drop-get_or r.contents off 0 (omega (arith, r.len_lem))
    ∙ ap (λ k. byte r off ∷ drop k r.contents) {x = suc off} (omega arith)

drop_past : (r : ReaderAt) (off : ℕ) → r.len ≤ off → drop off r.contents ≡ []
drop_past r off h = drop_all r.contents off (omega (arith, r.len_lem))

count_loops :
    (r : ReaderAt) (fuel off count : ℕ)
    → r.len < off + fuel
    → off ≤ r.len
    → of_walk (count_all_loop r fuel off count)
      ≡ of_count (count_stream_loop fuel (drop off r.contents) count)
unfolding count_all_loop count_stream_loop
count_loops r zero off count h k = absurd (omega arith)
count_loops r (suc fuel) off count h k = elim (Bool-cases (ltb off r.len)) [
  | inl more ↦
      rw (drop-byte r off (ltb→lt _ _ more)) (elim (parse_one_cases r off (ltb→lt _ _ more)) [
        | inl (m, n, e, lo, hi, b) ↦
            rw
              (
                more,
                count_all_loop,
                e,
                count_stream_loop,
                skip_some _ (
                    step_rest-skip r (off + 1) (omega (arith, ltb→lt _ _ more)) (byte r off)
                    ∙ ap (rest_at r) b),
              )
              (count_loops r fuel n (count + 1) (omega arith) hi)
        | inr (x, e, b) ↦
            let s = skip_none _ (
              step_rest-skip r (off + 1) (omega (arith, ltb→lt _ _ more)) (byte r off)
              ∙ ap (rest_at r) b) in
            rw (more, count_all_loop, e, count_stream_loop, s.1)
      ])
  | inr done ↦ rw (drop_past r off (ground arith)) (rw (done, count_all_loop))
]

-- On the bytes of any file the buffered reader counts as many records as the memory-mapped parser,
-- and one of them ends with an error exactly if the other does; neither panics nor runs out of fuel.
pub count_all-count_stream :
    (r : ReaderAt)
    → (n : ℕ) × (failed : Bool) × (of_walk (count_all r) ≡ some (n, failed))
      × (of_count (count_stream r.contents) ≡ some (n, failed))
unfolding count_all count_stream
count_all-count_stream r =
    let (ms, e, _, c) = parse_all_total r in
    let loops = count_loops r (r.len + 1) 0 0 (omega arith) (omega arith) in
    (
      length ms,
      is_some e,
      ap of_walk c,
      ap (λ k. of_count (count_stream_loop k r.contents 0)) (omega (arith, r.len_lem))
          ∙ sym loops
          ∙ ap of_walk (let c' : count_all r ≡ returned (length ms) e = c in c'),
    )
