-- ===== src/Mapper/Inverse.antt =====
-- The two tables of a source answer to each other (pkg/mapper/mapper.go).
use text.Mathlib.Text.{◌==◌ as str_eq}
use text.Mathlib.TextEquality.{eq_iff}
use spark_trade_mft_raw_data.Prelude.{
  String, ◌≡◌, refl, sym, ◌∙◌, ap, subst, true, false, Option, none, some, List, [], ◌∷◌,
  Bool-cases, inl, inr, All, ◌⊎◌, arith,
}
use spark_trade_mft_raw_data.Mapper.{
  Table, SymbolMapper, set, add_symbols, MappingFile, or_unknown, or_empty, look_up, load_file,
  load_files, new_symbol_mapper, map_to_canonical, map_to_provider,
}

-- what the one table gives, the other takes back
abbrev pub IsInverse : Table → Table → Type 0
IsInverse tc tp = (c p : String) → tp c ≡ some p → tc p ≡ some c

-- no two entries have one key, as in every map
abbrev pub IsDistinct : List (String × String) → Type 0
IsDistinct [] = Unit
IsDistinct (e ∷ rest) = All (λ (d : String × String). str_eq d.0 e.0 ≡ false) rest × IsDistinct rest

value_of : String → Option String → String
value_of d none = d
value_of d (some s) = s

str_eq→path : (s t : String) → str_eq s t ≡ true → s ≡ t
str_eq→path s t h = (eq_iff s t).0 h

set-same :
    {A : Type 0} (k : String) (a : A) (m : String → Option A) (j : String)
    → str_eq j k ≡ true
    → set k a m j ≡ some a
set-same k a m j e = rw e refl

set-other :
    {A : Type 0} (k : String) (a : A) (m : String → Option A) (j : String)
    → str_eq j k ≡ false
    → set k a m j ≡ m j
set-other k a m j e = rw e refl

some-path : (s t : String) → some s ≡ some t → s ≡ t
unfolding value_of
some-path s t h = ap (λ o. value_of s o) h

-- an entry with a new key
set-IsInverse :
    (p c : String) (tc tp : Table)
    → tc p ≡ none
    → IsInverse tc tp
    → IsInverse (set p c tc) (set c p tp)
set-IsInverse p c tc tp fresh inv c1 p1 h =
    by_key (Bool-cases (str_eq c1 c)) (Bool-cases (str_eq p1 p))
  where
    by_key :
        (str_eq c1 c ≡ true) ⊎ (str_eq c1 c ≡ false)
        → (str_eq p1 p ≡ true) ⊎ (str_eq p1 p ≡ false)
        → set p c tc p1 ≡ some c1
    by_key (inl e) (inl k) = set-same p c tc p1 k ∙ ap (λ s. some s) (sym (str_eq→path c1 c e))
    by_key (inl e) (inr k) =
        let q : p ≡ p1 = some-path p p1 (sym (set-same c p tp c1 e) ∙ h) in
        let r : str_eq p1 p ≡ true = (eq_iff p1 p).1 (sym q) in ground arith
    by_key (inr e) (inl k) =
        let t : tc p1 ≡ some c1 = inv c1 p1 (sym (set-other c p tp c1 e) ∙ h) in
        let u : tc p1 ≡ none = ap tc (str_eq→path p1 p k) ∙ fresh in ground arith
    by_key (inr e) (inr k) = set-other p c tc p1 k ∙ inv c1 p1 (sym (set-other c p tp c1 e) ∙ h)

-- the entries that are still to come have new keys
add_symbols-IsInverse :
    (mapping : List (String × String)) (tc tp : Table)
    → IsDistinct mapping
    → All (λ (e : String × String). tc e.0 ≡ none) mapping
    → IsInverse tc tp
    → let (tc1, tp1) = add_symbols mapping tc tp in IsInverse tc1 tp1
unfolding add_symbols
add_symbols-IsInverse [] tc tp d f inv = inv
add_symbols-IsInverse ((p, c) ∷ rest) tc tp d f inv =
    add_symbols-IsInverse rest (set p c tc) (set c p tp) d.1 (still_new rest d.0 f.1)
      (set-IsInverse p c tc tp f.0 inv)
  where
    still_new :
        (es : List (String × String))
        → All (λ (e : String × String). str_eq e.0 p ≡ false) es
        → All (λ (e : String × String). tc e.0 ≡ none) es
        → All (λ (e : String × String). set p c tc e.0 ≡ none) es
    still_new [] h k = tt
    still_new (e ∷ es) h k = (set-other p c tc e.0 h.0 ∙ k.0, still_new es h.1 k.1)

abbrev empty_table : Table
empty_table s = none

all_new : (es : List (String × String)) → All (λ (e : String × String). empty_table e.0 ≡ none) es
all_new [] = tt
all_new (e ∷ es) = (refl, all_new es)

abbrev pub IsConsistent : SymbolMapper → Type 0
IsConsistent m = (s : String) → IsInverse (look_up (m.to_canonical s)) (look_up (m.to_provider s))

-- a file whose mapping is a map
abbrev pub IsMap : MappingFile → Type 0
IsMap f = (mapping : List (String × String)) → f.mapping ≡ some mapping → IsDistinct mapping

look_up-set :
    (k : String) (t1 t2 : Table) (m1 m2 : String → Option Table)
    → IsInverse t1 t2
    → ((s : String) → IsInverse (look_up (m1 s)) (look_up (m2 s)))
    → (s : String) → IsInverse (look_up (set k t1 m1 s)) (look_up (set k t2 m2 s))
unfolding look_up
look_up-set k t1 t2 m1 m2 h inv s = by_key (Bool-cases (str_eq s k))
  where
    by_key :
        (str_eq s k ≡ true) ⊎ (str_eq s k ≡ false)
        → IsInverse (look_up (set k t1 m1 s)) (look_up (set k t2 m2 s))
    by_key (inl e) = rw (e) h
    by_key (inr e) = rw (e) (inv s)

-- What a load may give: nothing, or a consistent mapper.
abbrev Loads : Option SymbolMapper → Type 0
Loads none = Unit
Loads (some m) = IsConsistent m

module _ (lower : String → String) where
  load_file-Loads :
      (base : String) (mapping : Option (List (String × String))) (m : SymbolMapper)
      → ((es : List (String × String)) → mapping ≡ some es → IsDistinct es)
      → IsConsistent m
      → Loads (load_file lower base mapping m)
  unfolding load_file
  load_file-Loads base none m d inv = tt
  load_file-Loads base (some es) m d inv =
      let (tc, tp) = add_symbols es (λ s. none) (λ s. none) in
      look_up-set (lower base) tc tp m.to_canonical m.to_provider
        (add_symbols-IsInverse es (λ s. none) (λ s. none) (d es refl) (all_new es)
          (λ c p h. ground arith))
        inv

  load_files-Loads :
      (files : List MappingFile) (o : Option SymbolMapper)
      → All IsMap files
      → Loads o
      → Loads (load_files lower files o)
  unfolding load_files
  load_files-Loads files none d h = tt
  load_files-Loads [] (some m) d h = h
  load_files-Loads (f ∷ fs) (some m) d h =
      load_files-Loads fs (load_file lower f.base f.mapping m) d.1
        (load_file-Loads f.base f.mapping m d.0 h)

  new_symbol_mapper-Loads :
      (files : List MappingFile) → All IsMap files → Loads (new_symbol_mapper lower files)
  unfolding new_symbol_mapper look_up
  new_symbol_mapper-Loads [] d = tt
  new_symbol_mapper-Loads (f ∷ fs) d =
      load_files-Loads (f ∷ fs) (some _) d (λ s c p h. ground arith)

  provided :
      (tc : Table) (o : Option String) (s : String)
      → str_eq (or_empty o) "" ≡ false
      → ((p : String) → o ≡ some p → tc p ≡ some s)
      → or_unknown (tc (or_empty o)) ≡ s
  unfolding or_empty or_unknown
  provided tc none s e h = ground arith
  provided tc (some p) s e h = rw (h p refl) refl

  -- On the tables that NewSymbolMapper builds from any files, whatever the order in which it takes
  -- the entries of a file, and also where several symbols of a provider have one canonical symbol:
  -- a symbol that ToProvider gives, not the empty text, is one that ToCanonical takes back to the
  -- canonical symbol it was asked for.
  pub to_canonical-to_provider :
      (files : List MappingFile) (m : SymbolMapper) (source canonical : String)
      → All IsMap files
      → new_symbol_mapper lower files ≡ some m
      → str_eq (map_to_provider lower m source canonical) "" ≡ false
      → map_to_canonical lower m source (map_to_provider lower m source canonical) ≡ canonical
  unfolding map_to_provider map_to_canonical
  to_canonical-to_provider files m source canonical d e h =
      let inv : Loads (some m) = subst Loads e (new_symbol_mapper-Loads files d) in
      provided (look_up (m.to_canonical (lower source)))
        (look_up (m.to_provider (lower source)) canonical) canonical h
        (inv (lower source) canonical)
