-- ===== src/Floats.antt =====
-- Go's float64, which the models take as a parameter: the operations that the code uses, and what
-- IEEE 754 says of them. `le` is `<=`, false at a NaN.
use spark_trade_mft_raw_data.Prelude.{ℕ, ◌*◌, ◌≤◌, ◌<◌, ◌≡◌, Bool, true}

pub record Floats : Type 1 where
  pub F : Type 0
  pub le : F → F → Bool
  pub of_uint : ℕ → F  -- float64(n) of a uint64
  pub div : F → F → F
  pub zero : F

-- Counts below 2 ^ 53 convert exactly and a quotient is rounded correctly, so the quotients of
-- counts are ordered as the fractions are.
pub record Rounds (fl : Floats) : Type 0 where
  pub quotient_le :
      (a b c d : ℕ) (r : Floats.F fl)
      → a * d ≤ c * b
      → a < 0x20_0000_0000_0000
      → c < 0x20_0000_0000_0000
      → b < 0x20_0000_0000_0000
      → d < 0x20_0000_0000_0000
      → 0 < b
      → 0 < d
      → Floats.le fl (Floats.div fl (Floats.of_uint fl c) (Floats.of_uint fl d)) r ≡ true
      → Floats.le fl (Floats.div fl (Floats.of_uint fl a) (Floats.of_uint fl b)) r ≡ true
