-- ===== src/Wal/Reading.antt =====
-- Reading back the lines of a log's file (readFile of pkg/storage/wal.go).
use spark_trade_mft_raw_data.Prelude.{
  ℕ, suc, ◌+◌, ◌<◌, ◌≡◌, refl, ap, sym, ◌∙◌, false, some, List, [], ◌∷◌, ◌++◌, append_assoc,
  append-nil, length, length-append, take, drop, take-append-drop, leb, ◌==◌, All, arith,
}
use spark_trade_mft_raw_data.Wal.{
  drop_cr, before, scan, max_line, EventJson, keep_event, decode_lines, file_events,
}

-- A byte that is neither the end of a line nor a carriage return.
abbrev pub IsInner : ℕ → Type 0
IsInner b = ((b == 10) ≡ false) × ((b == 13) ≡ false)

drop_cr-inner : (l : List ℕ) → All IsInner l → drop_cr l ≡ l
unfolding drop_cr
drop_cr-inner [] h = refl
drop_cr-inner (b ∷ []) h = rw (h.0.1)
drop_cr-inner (b ∷ c ∷ bs) h = ap (λ l. b ∷ l) (drop_cr-inner (c ∷ bs) h.1)

scan-line :
    (limit : ℕ) (acc l rest : List ℕ)
    → All IsInner l
    → length acc + length l < limit
    → scan limit acc (l ++ (10 ∷ rest)) ≡ before (drop_cr (acc ++ l)) (scan limit [] rest)
unfolding scan
scan-line limit acc [] rest h k = rw append-nil
scan-line limit acc (b ∷ l) rest h k =
    let s : leb limit (suc (length acc)) ≡ false = ground arith in
    rw (h.0.0, scan, s, scan)
      (scan-line limit (acc ++ (b ∷ [])) l rest h.1 (omega (arith, length-append acc (b ∷ [])))
        ∙ ap (λ t. before (drop_cr t) (scan limit [] rest)) (append_assoc acc (b ∷ []) l))

-- what the scanner reads without an error it also reads when the file is cut off
pub scan-prefix :
    (limit : ℕ) (acc bs cs : List ℕ)
    → (scan limit acc (bs ++ cs)).1 ≡ false
    → (scan limit acc bs).1 ≡ false
unfolding scan
scan-prefix limit acc [] cs e = refl
scan-prefix limit acc (b ∷ bs) cs e =
    ground (arith, scan-prefix limit [] bs cs, scan-prefix limit (acc ++ (b ∷ [])) bs cs)

-- An event whose line encoding/json reads back: JSON has no line end and no carriage return inside
-- a text, and the line is shorter than the scanner's limit.
pub record IsLine {Ev : Type 0} (json : EventJson Ev) (ev : Ev) (line : List ℕ) : Type 0 where
  pub marshals : json.marshal ev ≡ some line
  pub reads : json.unmarshal line ≡ some ev
  pub inner : All IsInner line
  pub filled : (length line == 0) ≡ false
  pub short : length line < max_line

-- Events that the log may be given: one that can be marshalled has such a line.
abbrev pub IsLogged : {Ev : Type 0} → EventJson Ev → Ev → Type 0
IsLogged json ev = (line : List ℕ) → json.marshal ev ≡ some line → IsLine json ev line

-- An event that has been written, with its line.
pub record Entry {Ev : Type 0} (json : EventJson Ev) : Type 0 where
  pub event : Ev
  pub line : List ℕ
  pub is_line : IsLine json event line

module _ {Ev : Type 0} {json : EventJson Ev} where
  abbrev pub lines : List (Entry json) → List ℕ
  lines [] = []
  lines (e ∷ es) = e.line ++ (10 ∷ lines es)

  abbrev pub events : List (Entry json) → List Ev
  events [] = []
  events (e ∷ es) = e.event ∷ events es

  pub events-append : (es fs : List (Entry json)) → events (es ++ fs) ≡ events es ++ events fs
  events-append [] fs = refl
  events-append (e ∷ es) fs = ap (λ evs. e.event ∷ evs) (events-append es fs)

  pub length-events : (es : List (Entry json)) → length (events es) ≡ length es
  length-events [] = refl
  length-events (e ∷ es) = ap suc (length-events es)

  pub lines-append : (es fs : List (Entry json)) → lines (es ++ fs) ≡ lines es ++ lines fs
  lines-append [] fs = refl
  lines-append (e ∷ es) fs =
      ap (λ bs. e.line ++ (10 ∷ bs)) (lines-append es fs)
      ∙ sym (append_assoc e.line (10 ∷ lines es) (lines fs))

  scan-Entry :
      (e : Entry json) (rest : List ℕ)
      → scan max_line [] (e.line ++ (10 ∷ rest)) ≡ before e.line (scan max_line [] rest)
  scan-Entry e rest =
      scan-line max_line [] e.line rest e.is_line.inner (omega (arith, e.is_line.short))
      ∙ ap (λ l. before l (scan max_line [] rest)) (drop_cr-inner e.line e.is_line.inner)

  scan-lines :
      (es : List (Entry json)) (tail : List ℕ)
      → (scan max_line [] (lines es ++ tail)).1 ≡ (scan max_line [] tail).1
  scan-lines [] tail = refl
  scan-lines (e ∷ es) tail =
      ap (λ bs. (scan max_line [] bs).1) (append_assoc e.line (10 ∷ lines es) tail)
      ∙ ap (λ r. r.1) (scan-Entry e (lines es ++ tail))
      ∙ scan-lines es tail

  decode-lines :
      (es : List (Entry json)) (tail : List ℕ)
      → decode_lines json (scan max_line [] (lines es ++ tail)).0
        ≡ events es ++ decode_lines json (scan max_line [] tail).0
  unfolding decode_lines
  decode-lines [] tail = refl
  decode-lines (e ∷ es) tail =
      ap (λ bs. decode_lines json (scan max_line [] bs).0)
        (append_assoc e.line (10 ∷ lines es) tail)
      ∙ ap (λ r. decode_lines json r.0) (scan-Entry e (lines es ++ tail))
      ∙ rw (e.is_line.filled, e.is_line.reads, keep_event)
          (ap (λ evs. e.event ∷ evs) (decode-lines es tail))

  -- a file without an over-long line that starts with the lines gives their events first
  pub file_events-lines :
      (es : List (Entry json)) (tail : List ℕ)
      → (scan max_line [] (lines es ++ tail)).1 ≡ false
      → (more : List Ev) × (file_events json (lines es ++ tail) ≡ events es ++ more)
  unfolding file_events
  file_events-lines es tail h =
      (decode_lines json (scan max_line [] tail).0, rw h (decode-lines es tail))

  -- lines of written events are not over-long, nor is the file that ends within such a line
  pub scan-cut : (es : List (Entry json)) (n : ℕ) → (scan max_line [] (take n (lines es))).1 ≡ false
  unfolding scan
  scan-cut es n = scan-prefix max_line [] (take n (lines es)) (drop n (lines es)) (
      ap (λ bs. (scan max_line [] bs).1) (take-append-drop n (lines es))
      ∙ ap (λ bs. (scan max_line [] bs).1) (sym (append-nil (lines es)))
      ∙ scan-lines es [])
