-- ===== src/Tests/Itch.antt =====
-- pkg/parser/itch_mmap.go at concrete files.
use spark_trade_mft_raw_data.Prelude.{
  ℕ, ◌≡◌, refl, Bool, inl, Option, none, some, List, [], ◌∷◌, map, arith, length, get_elem?,
}
use spark_trade_mft_raw_data.Prelude.Int.{pos, negsuc}
use spark_trade_mft_raw_data.Itch.{ReaderAt, ItchMessage, ItchError, returned, parse_all, count_all}
use spark_trade_mft_raw_data.Itch.Bufio.{
  count_stream, skip_record, skip_system, counted, truncated_body,
}
use spark_trade_mft_raw_data.Itch.Walks.{parse_all_total}
use spark_trade_mft_raw_data.Itch.Agreement.{of_walk, of_count, count_all-count_stream}
use spark_trade_mft_raw_data.Itch.Layouts.{Rec, order, system, layouts, message}
use spark_trade_mft_raw_data.Itch.RoundTrip.{parse_all-layouts}

abbrev mapped : List ℕ → ReaderAt
mapped bytes = record {
  contents = bytes;
  len = length bytes;
  at = get_elem? bytes;
  len_lem = refl;
  at_lem = λ i. refl;
}

-- An order for "AB", sold at 7, with a timestamp before the epoch; then a system event.
abbrev two : List Rec
two = order b'A' 258 (negsuc 4) b'S' 7 100 (b'A' ∷ b'B' ∷ []) ∷ system (pos 9) b'C' ∷ []

parse_all-layouts_example : parse_all (mapped (layouts two)) ≡ returned (map message two) none
parse_all-layouts_example =
    parse_all-layouts (mapped (layouts two)) two
      ((inl refl, omega arith, omega arith, omega arith, omega arith), (omega arith, tt)) refl

abbrev cut : ReaderAt
cut = mapped (b'S' ∷ 0 ∷ 0 ∷ [])

count_stream_cut : count_stream (b'S' ∷ 0 ∷ 0 ∷ []) ≡ counted 0 (some truncated_body)
unfolding count_stream skip_record skip_system
count_stream_cut = refl

parse_all_total_example :
    (ms : List ItchMessage) × (e : Option ItchError) × (parse_all cut ≡ returned ms e)
    × (count_all cut ≡ returned (length ms) e)
parse_all_total_example = parse_all_total cut

count_all-count_stream_example :
    (n : ℕ) × (failed : Bool) × (of_walk (count_all cut) ≡ some (n, failed))
    × (of_count (count_stream cut.contents) ≡ some (n, failed))
count_all-count_stream_example = count_all-count_stream cut
