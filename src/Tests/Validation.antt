-- ===== src/Tests/Validation.antt =====
-- pkg/validation at concrete events, with fractions of counts for the floats.
use native.Mathlib.Nat.{mul-le-mul_right, le_of_mul-le-mul_right}
use spark_trade_mft_raw_data.Prelude.{
  ℕ, ◌+◌, ◌*◌, ◌≤◌, ◌<◌, ◌≡◌, refl, true, false, List, [], ◌∷◌, none, arith, All, leb, le→leb,
  String,
}
use spark_trade_mft_raw_data.Prelude.Int.{pos}
use spark_trade_mft_raw_data.Prelude.Word.{sub_int64}
use spark_trade_mft_raw_data.Floats.{Floats, Rounds}
use spark_trade_mft_raw_data.Event.{CanonicalEvent}
use spark_trade_mft_raw_data.Validation.{Rules, Times, validate, new_validator, validate_all}
use spark_trade_mft_raw_data.Validation.Counters.{
  IsCounted, validate_all-count_passed, count_passed,
}
use spark_trade_mft_raw_data.Validation.Latch.{IsRejected, first_latches}

abbrev fractions : Floats
fractions = record {
  F = ℕ × ℕ;
  le = λ x y. leb (x.0 * y.1) (y.0 * x.1);
  of_uint = λ n. (n, 1);
  div = λ x y. (x.0 * y.1, x.1 * y.0);
  zero = (0, 1);
}

leb→le : (a b : ℕ) → leb a b ≡ true → a ≤ b
leb→le a b h = ground arith

-- c / d ≤ p / q and a / b ≤ c / d give a / b ≤ p / q
le_trans_fractions : (a b c d p q : ℕ) → a * d ≤ c * b → 0 < d → c * q ≤ p * d → a * q ≤ p * b
le_trans_fractions a b c d p q h1 h2 h3 =
    le_of_mul-le-mul_right {k = d} (omega (arith, mul-le-mul_right q h1, mul-le-mul_right b h3)) h2

Rounds-fractions : Rounds fractions
Rounds-fractions = record {
  quotient_le = λ a b c d r h ha hc hb hd h0 h1 h2.
      le→leb _ _
        (omega (arith, le_trans_fractions a b c d r.0 r.1 h h1 (omega (arith, leb→le _ _ h2))));
}

-- the default rules, with limits in fractions
abbrev default_rules : Rules (ℕ × ℕ)
default_rules = record {
  max_timestamp_age = pos 3_600_000_000_000;
  required_fields = "EventID" ∷ "Source" ∷ "CanonicalSymbol" ∷ "EventType" ∷ [];
  min_price = (0, 1);
  max_price = (1_000_000_000, 1);
  min_size = (0, 1);
  max_size = (1_000_000_000_000, 1);
  allow_unknown_symbol = false;
  max_error_rate = (1, 10);
  max_latency_ms = pos 500;
}

abbrev trade_of : String → CanonicalEvent (ℕ × ℕ) ℕ
trade_of side = record {
  event_id = "e1";
  source = "binance";
  canonical_symbol = "BTC-USD";
  exchange_timestamp = pos 1_000;
  local_hw_timestamp = pos 2_000;
  event_type = "TRADE";
  price = (50_000, 1);
  size = (1, 2);
  side = side;
  levels = [];
  raw_payload = 1 ∷ 2 ∷ [];
  raw_format = "JSON";
  forex_metadata = none;
  futures_metadata = none;
  crypto_metadata = none;
  equity_metadata = none;
}

abbrev soon : Times
soon = record { now1 = pos 3_000; now5 = pos 4_000; started = pos 3_000 }

abbrev calls : List (CanonicalEvent (ℕ × ℕ) ℕ × Times)
calls = (trade_of "BUY", soon) ∷ (trade_of "SELL", soon) ∷ []

IsCounted-new_validator : IsCounted new_validator
IsCounted-new_validator = record {
  split = refl;
  layer1 = omega arith;
  layer2 = omega arith;
  layer3 = omega arith;
  layer4 = omega arith;
  layer5 = omega arith;
  covered = omega arith;
}

-- a good trade passes
good_passes : (validate fractions default_rules new_validator (trade_of "BUY") soon).0.passed ≡ true
unfolding validate sub_int64
good_passes = refl

-- a trade with an empty side does not
empty_side_fails :
    (validate fractions default_rules new_validator (trade_of "") soon).0.passed ≡ false
unfolding validate sub_int64
empty_side_fails = refl

validate_all-count_passed_example :
    let (results, w) = validate_all fractions default_rules new_validator calls in
    IsCounted w × (w.total_validated ≡ 2) × (w.total_passed ≡ 0 + count_passed results)
validate_all-count_passed_example =
    validate_all-count_passed fractions default_rules new_validator calls (omega arith)
      IsCounted-new_validator

first_latches_example :
    All IsRejected
      (validate_all fractions default_rules
        (validate fractions default_rules new_validator (trade_of "") soon).1
        calls).0
first_latches_example =
    first_latches fractions default_rules Rounds-fractions (trade_of "") soon calls (omega arith)
      refl empty_side_fails
