-- ===== src/Validation.antt =====
-- pkg/validation/validator.go: the five layers and the counters. The clock readings of a call and
-- the float operations are arguments; the messages for people and the latency of a result are
-- left out.
pub mod Counters
pub mod Latch
use Prim.Native.String.{◌++◌ as str_append}
use text.Mathlib.Text.{◌==◌ as str_eq}
use spark_trade_mft_raw_data.Prelude.{
  ℕ, ◌+◌, ◌*◌, String, Bool, true, false, ◌&&◌, ◌||◌, not, List, [], ◌∷◌, ◌++◌, ltb, ◌==◌,
  if◌then◌else◌, length,
}
use spark_trade_mft_raw_data.Prelude.Int.{ℤ, pos, ltz, lez, quot}
use spark_trade_mft_raw_data.Prelude.Word.{sub_int64, inc_uint64}
use spark_trade_mft_raw_data.Floats.{Floats}
use spark_trade_mft_raw_data.Event.{CanonicalEvent}

-- ValidationRules
pub record Rules (F : Type 0) : Type 0 where
  pub max_timestamp_age : ℤ  -- nanoseconds
  pub required_fields : List String
  pub min_price : F
  pub max_price : F
  pub min_size : F
  pub max_size : F
  pub allow_unknown_symbol : Bool
  pub max_error_rate : F
  pub max_latency_ms : ℤ

-- The counters of Validator.
pub record Validator : Type 0 where
  pub total_validated : ℕ
  pub total_passed : ℕ
  pub total_failed : ℕ
  pub layer1_failures : ℕ
  pub layer2_failures : ℕ
  pub layer3_failures : ℕ
  pub layer4_failures : ℕ
  pub layer5_failures : ℕ

-- NewValidator
abbrev pub new_validator : Validator
new_validator = record {
  total_validated = 0;
  total_passed = 0;
  total_failed = 0;
  layer1_failures = 0;
  layer2_failures = 0;
  layer3_failures = 0;
  layer4_failures = 0;
  layer5_failures = 0;
}

-- What `time.Now().UnixNano()` gives in layers 1 and 5, and the start of the processing.
pub record Times : Type 0 where
  pub now1 : ℤ
  pub now5 : ℤ
  pub started : ℤ

-- A layer's result: its checks, by name, and whether it passed.
pub record LayerResult : Type 0 where
  pub checks : List (String × Bool)
  pub passed : Bool

abbrev pub minute : ℤ
minute = pos 60_000_000_000

pub record ValidationResult : Type 0 where
  pub event_id : String
  pub passed : Bool
  pub connectivity : LayerResult
  pub protocol : LayerResult
  pub data_integrity : LayerResult
  pub fault_tolerance : LayerResult
  pub performance : LayerResult

-- the error rate of validateFaultTolerance
unfoldable pub error_rate : (fl : Floats) → Validator → Floats.F fl
error_rate fl v =
    if v.total_validated == 0
    then fl.zero
    else fl.div (fl.of_uint v.total_failed) (fl.of_uint v.total_validated)

-- `if !passed { failures++ }`
abbrev pub count_failure : Bool → ℕ → ℕ
count_failure passed n = if passed then n else inc_uint64 n

-- The counters after the five layers, given which of them passed.
unfoldable pub tally : Validator → Bool → Bool → Bool → Bool → Bool → Validator
tally v p1 p2 p3 p4 p5 =
    let passed = p1 && (p2 && (p3 && (p4 && p5))) in
    record {
      total_validated = v.total_validated;
      total_passed = if passed then inc_uint64 v.total_passed else v.total_passed;
      total_failed = if passed then v.total_failed else inc_uint64 v.total_failed;
      layer1_failures = count_failure p1 v.layer1_failures;
      layer2_failures = count_failure p2 v.layer2_failures;
      layer3_failures = count_failure p3 v.layer3_failures;
      layer4_failures = count_failure p4 v.layer4_failures;
      layer5_failures = count_failure p5 v.layer5_failures;
    }

module _ (fl : Floats) {J : Type 0} (rules : Rules (Floats.F fl)) where
  open fl use {F, le}

  -- validateConnectivity
  unfoldable pub validate_connectivity : CanonicalEvent F J → ℤ → LayerResult
  validate_connectivity event now =
      let recent = ltz (sub_int64 now event.exchange_timestamp) rules.max_timestamp_age in
      let local_exists = ltz (pos 0) event.local_hw_timestamp in
      let known = not (str_eq event.source "") && not (str_eq event.source "UNKNOWN") in
      record {
        checks =
            ("timestamp_recent", recent)
            ∷ ("local_timestamp_exists", local_exists)
            ∷ ("source_known", known)
            ∷ [];
        passed = recent && (local_exists && known);
      }

  -- checkFieldExists
  unfoldable pub check_field_exists : CanonicalEvent F J → String → Bool
  check_field_exists event field =
      if str_eq field "EventID"
      then not (str_eq event.event_id "")
      else if str_eq field "Source"
      then not (str_eq event.source "")
      else if str_eq field "CanonicalSymbol"
      then not (str_eq event.canonical_symbol "")
      else if str_eq field "EventType"
      then not (str_eq event.event_type "")
      else false

  -- the loop over the required fields
  unfoldable pub check_fields : CanonicalEvent F J → List String → LayerResult
  unfolding check_field_exists
  check_fields event [] = record { checks = []; passed = true }
  check_fields event (field ∷ fields) =
      let rest = check_fields event fields in
      record {
        checks = (str_append "field_" field, check_field_exists event field) ∷ rest.checks;
        passed = check_field_exists event field && rest.passed;
      }

  -- validateProtocol
  unfoldable pub validate_protocol : CanonicalEvent F J → LayerResult
  unfolding check_fields
  validate_protocol event =
      let fields = check_fields event rules.required_fields in
      let valid_type =
        not (str_eq event.event_type "") && not (str_eq event.event_type "UNKNOWN") in
      let raw_exists = ltb 0 (length event.raw_payload) in
      record {
        checks =
            fields.checks
            ++ (("valid_event_type", valid_type) ∷ ("raw_payload_exists", raw_exists) ∷ []);
        passed = fields.passed && (valid_type && raw_exists);
      }

  -- validateDataIntegrity
  unfoldable pub validate_data_integrity : CanonicalEvent F J → LayerResult
  validate_data_integrity event =
      let symbol_valid =
        not (str_eq event.canonical_symbol "")
        && (rules.allow_unknown_symbol || not (str_eq event.canonical_symbol "UNKNOWN")) in
      let price_valid = le rules.min_price event.price && le event.price rules.max_price in
      let size_valid = le rules.min_size event.size && le event.size rules.max_size in
      let side_valid =
        str_eq event.side "BUY" || (str_eq event.side "SELL" || str_eq event.side "UNKNOWN") in
      record {
        checks =
            ("symbol_valid", symbol_valid)
            ∷ ("price_valid", price_valid)
            ∷ ("size_valid", size_valid)
            ∷ ("side_valid", side_valid)
            ∷ [];
        passed = symbol_valid && (price_valid && (size_valid && side_valid));
      }

  -- validateFaultTolerance
  unfoldable pub validate_fault_tolerance : Validator → CanonicalEvent F J → LayerResult
  unfolding error_rate
  validate_fault_tolerance v event =
      let raw_preserved = ltb 0 (length event.raw_payload) in
      let rate_ok = le (error_rate fl v) rules.max_error_rate in
      record {
        checks = ("raw_preserved", raw_preserved) ∷ ("error_rate_ok", rate_ok) ∷ [];
        passed = raw_preserved && rate_ok;
      }

  -- validatePerformance
  unfoldable pub validate_performance : CanonicalEvent F J → Times → LayerResult
  validate_performance event t =
      let latency_ok = lez (quot (sub_int64 t.now5 t.started) 1_000_000) rules.max_latency_ms in
      let monotonic =
        lez event.exchange_timestamp event.local_hw_timestamp
        || ltz minute (sub_int64 t.now5 event.exchange_timestamp) in
      record {
        checks = ("latency_ok", latency_ok) ∷ ("timestamps_monotonic", monotonic) ∷ [];
        passed = latency_ok && monotonic;
      }

  -- Validate: the counter of calls first, then the five layers, then the counters of results.
  unfoldable pub validate : Validator → CanonicalEvent F J → Times → ValidationResult × Validator
  unfolding validate_connectivity validate_protocol validate_data_integrity validate_fault_tolerance
      validate_performance tally
  validate v event t =
      let v1 = record v { total_validated = inc_uint64 v.total_validated } in
      let layer1 = validate_connectivity event t.now1 in
      let layer2 = validate_protocol event in
      let layer3 = validate_data_integrity event in
      let layer4 = validate_fault_tolerance v1 event in
      let layer5 = validate_performance event t in
      let passed =
        layer1.passed && (layer2.passed && (layer3.passed && (layer4.passed && layer5.passed))) in
      (
        record {
          event_id = event.event_id;
          passed = passed;
          connectivity = layer1;
          protocol = layer2;
          data_integrity = layer3;
          fault_tolerance = layer4;
          performance = layer5;
        },
        tally v1 layer1.passed layer2.passed layer3.passed layer4.passed layer5.passed,
      )

  -- A row of calls, one event and its clock readings each: the results and the counters after it.
  unfoldable pub validate_all :
      Validator → List (CanonicalEvent F J × Times) → List ValidationResult × Validator
  validate_all v [] = ([], v)
  validate_all v ((event, t) ∷ calls) =
      let (result, v1) = validate v event t in
      let (results, w) = validate_all v1 calls in (result ∷ results, w)
