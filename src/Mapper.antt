-- ===== src/Mapper.antt =====
-- pkg/mapper/mapper.go: the tables between the symbols of a provider and the canonical ones. A Go
-- map is a function to an optional value; strings.ToLower is a parameter.
pub mod Inverse
use text.Mathlib.Text.{◌==◌ as str_eq}
use text.Mathlib.TextEquality.{eq_iff}
use spark_trade_mft_raw_data.Prelude.{
  String, ◌≡◌, refl, sym, ◌∙◌, ap, subst, Bool, true, false, ◌↔◌, Option, none, some, List, [], ◌∷◌,
  if◌then◌else◌, if_cases, Bool-cases, inl, inr, All,
}

abbrev pub Table : Type 0
Table = String → Option String

pub record SymbolMapper : Type 0 where
  pub to_canonical : String → Option Table
  pub to_provider : String → Option Table

-- `m[k] = a`
abbrev pub set : {A : Type 0} → String → A → (String → Option A) → String → Option A
set k a m j = if str_eq j k then some a else m j

-- the loop over a file's mapping, which Go takes in any order: both tables of its source
unfoldable pub add_symbols : List (String × String) → Table → Table → Table × Table
add_symbols [] tc tp = (tc, tp)
add_symbols ((provider, canonical) ∷ rest) tc tp =
    add_symbols rest (set provider canonical tc) (set canonical provider tp)

-- A file: its name without the extension, and its mapping if it is read and parsed.
pub record MappingFile : Type 0 where
  pub base : String
  pub mapping : Option (List (String × String))

unfoldable pub or_unknown : Option String → String
or_unknown none = "UNKNOWN"
or_unknown (some s) = s

unfoldable pub or_empty : Option String → String
or_empty none = ""
or_empty (some s) = s

-- `m[source][symbol]`: a source without a table has no symbols
unfoldable pub look_up : Option Table → String → Option String
look_up none s = none
look_up (some t) s = t s

unfoldable pub is_some : Option String → Bool
is_some none = false
is_some (some s) = true

module _ (lower : String → String) where
  -- one file of NewSymbolMapper, whose tables replace those of a file with the same source
  unfoldable pub load_file :
      String → Option (List (String × String)) → SymbolMapper → Option SymbolMapper
  unfolding add_symbols
  load_file base none m = none
  load_file base (some mapping) m =
      let (tc, tp) = add_symbols mapping (λ s. none) (λ s. none) in
      some (record {
        to_canonical = set (lower base) tc m.to_canonical;
        to_provider = set (lower base) tp m.to_provider;
      })

  unfoldable pub load_files : List MappingFile → Option SymbolMapper → Option SymbolMapper
  unfolding load_file
  load_files files none = none
  load_files [] (some m) = some m
  load_files (f ∷ fs) (some m) = load_files fs (load_file f.base f.mapping m)

  -- NewSymbolMapper, on the files of the directory
  unfoldable pub new_symbol_mapper : List MappingFile → Option SymbolMapper
  unfolding load_files
  new_symbol_mapper [] = none
  new_symbol_mapper (f ∷ fs) =
      load_files (f ∷ fs) (some (record { to_canonical = λ s. none; to_provider = λ s. none }))

  -- ToCanonical, ToProvider, IsKnown
  unfoldable pub map_to_canonical : SymbolMapper → String → String → String
  unfolding or_unknown look_up
  map_to_canonical m source symbol = or_unknown (look_up (m.to_canonical (lower source)) symbol)

  unfoldable pub map_to_provider : SymbolMapper → String → String → String
  unfolding or_empty look_up
  map_to_provider m source canonical = or_empty (look_up (m.to_provider (lower source)) canonical)

  unfoldable pub is_known : SymbolMapper → String → String → Bool
  unfolding is_some look_up
  is_known m source symbol = is_some (look_up (m.to_canonical (lower source)) symbol)
