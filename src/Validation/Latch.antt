-- ===== src/Validation/Latch.antt =====
-- The error rate of layer 4 (pkg/validation/validator.go) once it is above its limit.
use spark_trade_mft_raw_data.Prelude.{
  ℕ, suc, ◌+◌, ◌≤◌, ◌<◌, ◌≡◌, refl, Bool, true, false, ◌&&◌, List, [], ◌∷◌, arith, length, All,
  Bool-cases, inl, inr, suc-eq-zero,
}
use spark_trade_mft_raw_data.Prelude.Word.{inc_uint64}
use spark_trade_mft_raw_data.Floats.{Floats, Rounds}
use spark_trade_mft_raw_data.Event.{CanonicalEvent}
use spark_trade_mft_raw_data.Validation.{
  Rules, Validator, new_validator, Times, ValidationResult, tally, error_rate, validate,
  validate_all, validate_connectivity, validate_protocol, validate_data_integrity,
  validate_fault_tolerance, validate_performance,
}

-- The next call finds the error rate above the limit.
pub record IsLatched (fl : Floats) (rules : Rules (Floats.F fl)) (v : Validator) : Type 0 where
  pub failed_le : v.total_failed ≤ v.total_validated
  pub above :
      Floats.le fl
        (Floats.div fl
          (Floats.of_uint fl v.total_failed)
          (Floats.of_uint fl (suc v.total_validated)))
        rules.max_error_rate
      ≡ false

module _ (fl : Floats) where
  open fl use {F}

  -- the rate that layer 4 compares with its limit
  error_rate-inc_uint64 :
      (v : Validator)
      → v.total_validated + 2 < 0x20_0000_0000_0000
      → error_rate fl (record v { total_validated = inc_uint64 v.total_validated })
        ≡ fl.div (fl.of_uint v.total_failed) (fl.of_uint (suc v.total_validated))
  unfolding error_rate
  error_rate-inc_uint64 v h =
      let e : inc_uint64 v.total_validated ≡ suc v.total_validated = omega arith in
      rw (e, suc-eq-zero)

  -- a further failure keeps the rate above the limit
  above-suc :
      Rounds fl
      → (f n : ℕ) (limit : F) → f ≤ n
      → n + 3 < 0x20_0000_0000_0000
      → fl.le (fl.div (fl.of_uint f) (fl.of_uint (suc n))) limit ≡ false
      → fl.le (fl.div (fl.of_uint (suc f)) (fl.of_uint (suc (suc n)))) limit ≡ false
  above-suc rounds f n limit h1 h2 h3 =
      elim (Bool-cases (fl.le (fl.div (fl.of_uint (suc f)) (fl.of_uint (suc (suc n)))) limit)) [
        | inl e ↦
            let e' : fl.le (fl.div (fl.of_uint f) (fl.of_uint (suc n))) limit ≡ true =
              rounds.quotient_le f (suc n) (suc f) (suc (suc n)) limit (omega arith) (omega arith)
                (omega arith) (omega arith) (omega arith) (omega arith) (omega arith) e in
            ground arith
        | inr e ↦ e
      ]

fourth_false : (p1 p2 p3 p4 p5 : Bool) → p4 ≡ false → (p1 && (p2 && (p3 && (p4 && p5)))) ≡ false
fourth_false p1 p2 p3 p4 p5 e = ground arith

tally_failed :
    (v : Validator) (p1 p2 p3 p4 p5 : Bool)
    → (p1 && (p2 && (p3 && (p4 && p5)))) ≡ false
    → v.total_validated + 2 < 0x20_0000_0000_0000
    → v.total_failed ≤ v.total_validated
    → let w = tally (record v { total_validated = inc_uint64 v.total_validated }) p1 p2 p3 p4 p5 in
      (w.total_validated ≡ suc v.total_validated) × (w.total_failed ≡ suc v.total_failed)
unfolding tally
tally_failed v p1 p2 p3 p4 p5 e h k = (omega arith, ground arith)

IsLatched-suc :
    (fl : Floats) (rules : Rules (Floats.F fl))
    → Rounds fl
    → (v w : Validator) → v.total_validated + 3 < 0x20_0000_0000_0000
    → IsLatched fl rules v
    → w.total_validated ≡ suc v.total_validated
    → w.total_failed ≡ suc v.total_failed
    → IsLatched fl rules w
IsLatched-suc fl rules rounds v w h l e1 e2 = record {
  failed_le = omega (arith, l.failed_le, e1, e2);
  above = rw (e1, e2, above-suc fl rounds v.total_failed v.total_validated _ l.failed_le h l.above);
}

and_false : (b : Bool) → (b && false) ≡ false
and_false true = refl
and_false false = refl

-- an event that fails layer 4 and is counted as failed
abbrev pub IsRejected : ValidationResult → Type 0
IsRejected result = (result.passed ≡ false) × (result.fault_tolerance.passed ≡ false)

module _ (fl : Floats) {J : Type 0} (rules : Rules (Floats.F fl)) where
  open fl use {F}

  fault_tolerance_above :
      (v : Validator) (event : CanonicalEvent F J)
      → v.total_validated + 2 < 0x20_0000_0000_0000
      → IsLatched fl rules v
      → (validate_fault_tolerance fl rules
          (record v { total_validated = inc_uint64 v.total_validated })
          event).passed
        ≡ false
  unfolding validate_fault_tolerance
  fault_tolerance_above v event h l = rw (error_rate-inc_uint64 fl v h, l.above, and_false)

  -- an event that does not pass counts as failed
  validate_failed :
      (v : Validator) (event : CanonicalEvent F J) (t : Times)
      → v.total_validated + 2 < 0x20_0000_0000_0000
      → v.total_failed ≤ v.total_validated
      → (validate fl rules v event t).0.passed ≡ false
      → let w = (validate fl rules v event t).1 in
        (w.total_validated ≡ suc v.total_validated) × (w.total_failed ≡ suc v.total_failed)
  unfolding validate
  validate_failed v event t h k e =
      tally_failed v (validate_connectivity fl rules event t.now1).passed
        (validate_protocol fl rules event).passed (validate_data_integrity fl rules event).passed
        (validate_fault_tolerance fl rules
          (record v { total_validated = inc_uint64 v.total_validated }) event).passed
        (validate_performance fl rules event t).passed e h k

  validate_above :
      (v : Validator) (event : CanonicalEvent F J) (t : Times)
      → v.total_validated + 2 < 0x20_0000_0000_0000
      → IsLatched fl rules v
      → IsRejected (validate fl rules v event t).0
  unfolding validate
  validate_above v event t h l =
      let e = fault_tolerance_above v event h l in
      (
        fourth_false (validate_connectivity fl rules event t.now1).passed
            (validate_protocol fl rules event).passed
            (validate_data_integrity fl rules event).passed _
            (validate_performance fl rules event t).passed e,
        e,
      )

  validate-IsLatched :
      Rounds fl
      → (v : Validator) (event : CanonicalEvent F J) (t : Times)
      → v.total_validated + 3 < 0x20_0000_0000_0000
      → IsLatched fl rules v
      → let (result, w) = validate fl rules v event t in
        IsRejected result × IsLatched fl rules w × (w.total_validated ≡ suc v.total_validated)
  validate-IsLatched rounds v event t h l =
      let e = validate_above v event t (omega arith) l in
      let c = validate_failed v event t (omega arith) l.failed_le e.0 in
      (e, IsLatched-suc fl rules rounds v _ h l c.0 c.1, c.0)

  -- Once the rate is above the limit, every later event is rejected, whatever it holds.
  latched :
      Rounds fl
      → (v : Validator) (calls : List (CanonicalEvent F J × Times))
      → v.total_validated + length calls + 3 < 0x20_0000_0000_0000
      → IsLatched fl rules v
      → All IsRejected (validate_all fl rules v calls).0
  unfolding validate_all
  latched rounds v [] h l = tt
  latched rounds v ((event, t) ∷ calls) h l =
      let (rejected, l', e) = validate-IsLatched rounds v event t (omega arith) l in
      (rejected, latched rounds (validate fl rules v event t).1 calls (omega arith) l')

  -- If the first event that a new validator sees does not pass and the limit of the error rate is
  -- below one half, every later event fails layer 4 and is rejected, whatever it holds, as long as
  -- fewer than 2 ^ 53 - 4 follow.
  pub first_latches :
      Rounds fl
      → (event : CanonicalEvent F J) (t : Times) (calls : List (CanonicalEvent F J × Times))
      → length calls + 4 < 0x20_0000_0000_0000
      → fl.le (fl.div (fl.of_uint 1) (fl.of_uint 2)) rules.max_error_rate ≡ false
      → (validate fl rules new_validator event t).0.passed ≡ false
      → All IsRejected (validate_all fl rules (validate fl rules new_validator event t).1 calls).0
  first_latches rounds event t calls h k e =
      let c = validate_failed new_validator event t (omega arith) (omega arith) e in
      latched rounds _ calls (omega (arith, c.0))
        (record { failed_le = omega (arith, c.0, c.1); above = rw (c.0, c.1, k) })
