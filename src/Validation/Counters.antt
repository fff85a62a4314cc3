-- ===== src/Validation/Counters.antt =====
-- The counters of a validator (pkg/validation/validator.go).
use spark_trade_mft_raw_data.Prelude.{
  ℕ, suc, ◌+◌, ◌≤◌, ◌<◌, ◌≡◌, Bool, true, false, ◌&&◌, List, [], ◌∷◌, arith, if◌then◌else◌, length,
}
use spark_trade_mft_raw_data.Prelude.Word.{inc_uint64}
use spark_trade_mft_raw_data.Floats.{Floats}
use spark_trade_mft_raw_data.Event.{CanonicalEvent}
use spark_trade_mft_raw_data.Validation.{
  Rules, Validator, Times, ValidationResult, validate_connectivity, validate_protocol,
  validate_data_integrity, validate_fault_tolerance, validate_performance, tally, validate,
  validate_all,
}

-- Every call is counted once as passed or failed; a layer that failed makes the event fail, and an
-- event that failed has a layer that failed.
pub record IsCounted (v : Validator) : Type 0 where
  pub split : v.total_validated ≡ v.total_passed + v.total_failed
  pub layer1 : v.layer1_failures ≤ v.total_failed
  pub layer2 : v.layer2_failures ≤ v.total_failed
  pub layer3 : v.layer3_failures ≤ v.total_failed
  pub layer4 : v.layer4_failures ≤ v.total_failed
  pub layer5 : v.layer5_failures ≤ v.total_failed
  pub covered :
      v.total_failed
      ≤ v.layer1_failures + v.layer2_failures + v.layer3_failures + v.layer4_failures
        + v.layer5_failures

tally-IsCounted :
    (v : Validator) (p1 p2 p3 p4 p5 : Bool)
    → v.total_validated + 1 < 0x1_0000_0000_0000_0000
    → IsCounted v
    → IsCounted (tally (record v { total_validated = inc_uint64 v.total_validated }) p1 p2 p3 p4 p5)
unfolding tally
tally-IsCounted v p1 p2 p3 p4 p5 h c = record {
  split = ground arith;
  layer1 = ground arith;
  layer2 = ground arith;
  layer3 = ground arith;
  layer4 = ground arith;
  layer5 = ground arith;
  covered = ground arith;
}

tally-passed :
    (v : Validator) (p1 p2 p3 p4 p5 : Bool)
    → v.total_validated + 1 < 0x1_0000_0000_0000_0000
    → IsCounted v
    → let w = tally (record v { total_validated = inc_uint64 v.total_validated }) p1 p2 p3 p4 p5 in
      let passed = p1 && (p2 && (p3 && (p4 && p5))) in
      (w.total_validated ≡ suc v.total_validated)
      × (w.total_passed ≡ (if passed then suc v.total_passed else v.total_passed))
unfolding tally
tally-passed v p1 p2 p3 p4 p5 h c = (ground arith, ground arith)

-- how many of the results say that the event passed
unfoldable pub count_passed : List ValidationResult → ℕ
count_passed [] = 0
count_passed (result ∷ results) = let n = count_passed results in if result.passed then suc n else n

count_first :
    (b : Bool) (n p q w : ℕ)
    → w ≡ q + n
    → q ≡ (if b then suc p else p)
    → w ≡ p + (if b then suc n else n)
count_first true n p q w h e = omega arith
count_first false n p q w h e = omega arith

module _ (fl : Floats) {J : Type 0} (rules : Rules (Floats.F fl)) where
  open fl use {F}

  validate-IsCounted :
      (v : Validator) (event : CanonicalEvent F J) (t : Times)
      → v.total_validated + 1 < 0x1_0000_0000_0000_0000
      → IsCounted v
      → IsCounted (validate fl rules v event t).1
  unfolding validate
  validate-IsCounted v event t h c = tally-IsCounted v _ _ _ _ _ h c

  -- one call counts its event, and as passed if its result says so
  validate-count_passed :
      (v : Validator) (event : CanonicalEvent F J) (t : Times)
      → v.total_validated + 1 < 0x1_0000_0000_0000_0000
      → IsCounted v
      → let (result, w) = validate fl rules v event t in
        (w.total_validated ≡ suc v.total_validated)
        × (w.total_passed ≡ (if result.passed then suc v.total_passed else v.total_passed))
  unfolding validate
  validate-count_passed v event t h c =
      tally-passed v (validate_connectivity fl rules event t.now1).passed
        (validate_protocol fl rules event).passed (validate_data_integrity fl rules event).passed
        (validate_fault_tolerance fl rules
          (record v { total_validated = inc_uint64 v.total_validated }) event).passed
        (validate_performance fl rules event t).passed h c

  -- From counters that add up, a row of calls that keeps the count of calls below 2 ^ 64 leaves
  -- counters that add up: the calls are all counted, those with a passing result as passed, the
  -- others as failed, each layer has at most as many failures as there are failed events, and
  -- together at least as many.
  pub validate_all-count_passed :
      (v : Validator) (calls : List (CanonicalEvent F J × Times))
      → v.total_validated + length calls < 0x1_0000_0000_0000_0000
      → IsCounted v
      → let (results, w) = validate_all fl rules v calls in
        IsCounted w
        × (w.total_validated ≡ v.total_validated + length calls)
        × (w.total_passed ≡ v.total_passed + count_passed results)
  unfolding validate_all count_passed
  validate_all-count_passed v [] h c = (c, omega arith, omega arith)
  validate_all-count_passed v ((event, t) ∷ calls) h c =
      let (e, f) = validate-count_passed v event t (omega arith) c in
      let ih =
        validate_all-count_passed (validate fl rules v event t).1 calls (omega arith)
          (validate-IsCounted v event t (omega arith) c) in
      (ih.0, omega (arith, ih.1, e), count_first _ _ _ _ _ ih.2 f)
