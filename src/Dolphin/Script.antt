-- ===== src/Dolphin/Script.antt =====
-- ddbString and buildInsertScript of pkg/storage/dolphindb.go: the scripts for the database, as their
-- bytes.
use spark_trade_mft_raw_data.Prelude.{
  ℕ, ◌≡◌, refl, ap, ◌∙◌, true, false, ◌||◌, Option, none, some, List, [], ◌∷◌, ◌++◌, append_assoc,
  ◌==◌, if◌then◌else◌, if_cases, arith, map, length, length-map, zero, suc, ◌≤◌, String,
}
use spark_trade_mft_raw_data.Prelude.Int.{ℤ}
use spark_trade_mft_raw_data.Event.{CanonicalEvent}

-- strings.NewReplacer for a backslash and a double quote
unfoldable pub ddb_escape : List ℕ → List ℕ
ddb_escape [] = []
ddb_escape (b ∷ bs) =
    let rest = ddb_escape bs in if b == 92 || b == 34 then 92 ∷ b ∷ rest else b ∷ rest

-- ddbString
unfoldable pub ddb_string : List ℕ → List ℕ
unfolding ddb_escape
ddb_string s = 34 ∷ (ddb_escape s ++ (34 ∷ []))

abbrev pub read_first : ℕ → Option (List ℕ × List ℕ) → Option (List ℕ × List ℕ)
read_first b none = none
read_first b (some (s, rest)) = some (b ∷ s, rest)

-- How a quoted text is read: a backslash stands for the byte behind it, and the text ends at the
-- first double quote that none stands for.
abbrev pub read_quoted : List ℕ → Option (List ℕ × List ℕ)
read_quoted [] = none
read_quoted (b ∷ []) = elim (b == 34) [ true ↦ some ([], []) | false ↦ none ]
read_quoted (b ∷ c ∷ bs) = elim (b == 34) [
  | true ↦ some ([], c ∷ bs)
  | false ↦ elim (b == 92) [
    | true ↦ read_first c (read_quoted bs)
    | false ↦ read_first b (read_quoted (c ∷ bs))
  ]
]

abbrev pub read_literal : List ℕ → Option (List ℕ × List ℕ)
read_literal [] = none
read_literal (b ∷ bs) = if b == 34 then read_quoted bs else none

read_quoted-plain :
    (b : ℕ) (bs : List ℕ)
    → (b == 34) ≡ false
    → (b == 92) ≡ false
    → read_quoted (b ∷ bs) ≡ read_first b (read_quoted bs)
read_quoted-plain b [] h k = rw (read_quoted, h) refl
read_quoted-plain b (c ∷ bs) h k = rw (read_quoted, h, k) refl

read_quoted-end : (rest : List ℕ) → read_quoted (34 ∷ rest) ≡ some ([], rest)
read_quoted-end [] = refl
read_quoted-end (c ∷ rest) = refl

read_quoted-escape : (s rest : List ℕ) → read_quoted (ddb_escape s ++ (34 ∷ rest)) ≡ some (s, rest)
unfolding ddb_escape
read_quoted-escape [] rest = read_quoted-end rest
read_quoted-escape (b ∷ s) rest =
    let ih = ap (read_first b) (read_quoted-escape s rest) in
    if_cases (λ t. read_quoted (t ++ (34 ∷ rest)) ≡ some (b ∷ s, rest)) (b == 92 || b == 34)
      (λ _. ih)
      (λ h. read_quoted-plain b (ddb_escape s ++ (34 ∷ rest)) (ground arith) (ground arith) ∙ ih)

pub read-ddb_string : (s rest : List ℕ) → read_literal (ddb_string s ++ rest) ≡ some (s, rest)
unfolding ddb_string
read-ddb_string s rest =
    ap read_quoted (append_assoc (ddb_escape s) (34 ∷ []) rest) ∙ read_quoted-escape s rest

-- strings.Join with a comma
unfoldable pub join : List (List ℕ) → List ℕ
join [] = []
join (x ∷ []) = x
join (x ∷ y ∷ ys) = x ++ (44 ∷ join (y ∷ ys))

-- a column of buildInsertScript
unfoldable pub column : List (List ℕ) → List ℕ
unfolding join
column xs = 91 ∷ (join xs ++ (93 ∷ []))

-- a column of texts
unfoldable pub text_column : {A : Type 0} → (A → List ℕ) → List A → List ℕ
unfolding column ddb_string
text_column field evs = column (map ddb_string (map field evs))

-- How a column of at most `k` texts is read behind its bracket: texts with a comma between them,
-- and a bracket at the end.
abbrev put_first : List ℕ → Option (List (List ℕ) × List ℕ) → Option (List (List ℕ) × List ℕ)
put_first t none = none
put_first t (some (ts, end)) = some (t ∷ ts, end)

abbrev read_more :
    (List ℕ → Option (List (List ℕ) × List ℕ)) → List ℕ → List ℕ → Option (List (List ℕ) × List ℕ)
read_more read t [] = none
read_more read t (c ∷ rest) =
    if c == 93 then some (t ∷ [], rest) else if c == 44 then put_first t (read rest) else none

abbrev read_next :
    (List ℕ → Option (List (List ℕ) × List ℕ))
    → Option (List ℕ × List ℕ)
    → Option (List (List ℕ) × List ℕ)
read_next read none = none
read_next read (some (t, rest)) = read_more read t rest

abbrev pub read_texts : ℕ → List ℕ → Option (List (List ℕ) × List ℕ)
read_texts zero s = none
read_texts (suc k) s = read_next (read_texts k) (read_literal s)

abbrev pub read_column : ℕ → List ℕ → Option (List (List ℕ) × List ℕ)
read_column k [] = none
read_column k (b ∷ s) = if b == 91 then read_texts k s else none

read_texts-join :
    (t : List ℕ) (ts : List (List ℕ)) (k : ℕ) (rest : List ℕ)
    → length ts ≤ k
    → read_texts (suc k) (join (map ddb_string (t ∷ ts)) ++ (93 ∷ rest)) ≡ some (t ∷ ts, rest)
unfolding join
read_texts-join t [] k rest h = rw (read_texts, read-ddb_string t (93 ∷ rest)) refl
read_texts-join t (u ∷ us) zero rest h = grind arith
read_texts-join t (u ∷ us) (suc k) rest h =
    let more = join (map ddb_string (u ∷ us)) in
    ap (λ s. read_next (read_texts (suc k)) (read_literal s))
      (append_assoc (ddb_string t) (44 ∷ more) (93 ∷ rest))
    ∙ (ap (read_next (read_texts (suc k))) (read-ddb_string t (44 ∷ (more ++ (93 ∷ rest))))
        ∙ ap (put_first t) (read_texts-join u us k rest (omega arith)))

-- Whatever bytes the texts of a batch of one event or more hold, quotes, commas and brackets
-- included: the column of a text field reads, where a backslash stands for the byte behind it, as
-- the field of each event, in their order, and ends where it ends, so that there are as many texts
-- as events and nothing of a text gets into the script around it.
pub read_column-text_column :
    {A : Type 0} (field : A → List ℕ) (ev : A) (evs : List A) (rest : List ℕ)
    → read_column (length (ev ∷ evs)) (text_column field (ev ∷ evs) ++ rest)
      ≡ some (map field (ev ∷ evs), rest)
unfolding text_column column
read_column-text_column field ev evs rest =
    ap (read_texts (length (ev ∷ evs)))
      (append_assoc (join (map ddb_string (map field (ev ∷ evs)))) (93 ∷ []) rest)
    ∙ read_texts-join (field ev) (map field evs) (length evs) rest
        (omega (arith, length-map evs field))

-- `bytes` gives the bytes of a text
module _ (bytes : String → List ℕ) where
  abbrev named : List ℕ → String → List ℕ
  named col rest = col ++ bytes rest

  -- `loadTable("<database>", "<table>").append!(table(`
  unfoldable append_to : List ℕ → String → List ℕ
  append_to database table =
      bytes "loadTable(\""
      ++ database
      ++ bytes "\", \""
      ++ bytes table
      ++ bytes "\").append!(table("

-- buildInsertScript; `int` and `float` format numbers
module _ {F J : Type 0} (bytes : String → List ℕ) (int : ℤ → List ℕ) (float : F → List ℕ) where
  abbrev number_column : (CanonicalEvent F J → List ℕ) → List (CanonicalEvent F J) → List ℕ
  number_column field evs = column (map field evs)

  unfoldable pub raw_insert : List ℕ → List (CanonicalEvent F J) → List ℕ
  unfolding append_to text_column column
  raw_insert database evs =
      append_to bytes database "raw_events"
      ++ named bytes (text_column (λ (ev : CanonicalEvent F J). bytes ev.event_id) evs)
          " as event_id, "
      ++ named bytes (text_column (λ (ev : CanonicalEvent F J). bytes ev.source) evs) " as source, "
      ++ named bytes (text_column (λ (ev : CanonicalEvent F J). ev.raw_payload) evs) " as payload, "
      ++ named bytes (number_column (λ ev. int ev.local_hw_timestamp) evs) " as received_at, "
      ++ named bytes (number_column (λ _. bytes "0") evs) " as sequence_num)); "

  unfoldable pub canonical_insert : List ℕ → List (CanonicalEvent F J) → List ℕ
  unfolding append_to text_column column
  canonical_insert database evs =
      append_to bytes database "canonical_events"
      ++ named bytes (text_column (λ (ev : CanonicalEvent F J). bytes ev.event_id) evs)
          " as event_id, "
      ++ named bytes (text_column (λ (ev : CanonicalEvent F J). bytes ev.canonical_symbol) evs)
          " as symbol, "
      ++ named bytes (number_column (λ ev. int ev.exchange_timestamp) evs) " as exchange_ts, "
      ++ named bytes (number_column (λ ev. int ev.local_hw_timestamp) evs) " as local_ts, "
      ++ named bytes (number_column (λ ev. float ev.price) evs) " as price, "
      ++ named bytes (number_column (λ ev. float ev.size) evs) " as size, "
      ++ named bytes (text_column (λ (ev : CanonicalEvent F J). bytes ev.side) evs) " as side, "
      ++ named bytes (text_column (λ (ev : CanonicalEvent F J). bytes ev.event_type) evs)
          " as event_type)); "

  unfoldable pub insert_script : List ℕ → List (CanonicalEvent F J) → List ℕ
  unfolding raw_insert canonical_insert
  insert_script database [] = []
  insert_script database (ev ∷ evs) =
      bytes "try{ "
      ++ raw_insert database (ev ∷ evs)
      ++ canonical_insert database (ev ∷ evs)
      ++ bytes "}catch(ex){ throw ex };"
