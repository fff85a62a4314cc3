-- ===== src/Prelude/Word.antt =====
-- Big-endian fields of 4 and 8 bytes (Go's encoding/binary), and two's complement.
use Prim.Native.Nat.{ℕ, ◌+◌, ◌-◌, ◌*◌, ◌/◌, ◌%◌, ◌<◌}
use mathlib.Core.Path.{◌≡◌}
use mathlib.Core.List.{List, [], ◌∷◌, ◌++◌}
use native.Mathlib.Omega.{arith}
use spark_trade_mft_raw_data.Prelude.Tests.{ltb, if◌then◌else◌}
use spark_trade_mft_raw_data.Prelude.Lists.{All}
use spark_trade_mft_raw_data.Prelude.Int.{ℤ, pos, negsuc}

abbrev pub IsByte : ℕ → Type 0
IsByte b = b < 256

abbrev pub IsU32 : ℕ → Type 0
IsU32 n = n < 0x1_0000_0000

abbrev pub IsU64 : ℕ → Type 0
IsU64 n = n < 0x1_0000_0000_0000_0000

-- binary.BigEndian.PutUint32
unfoldable pub put_uint32 : ℕ → List ℕ
put_uint32 n = (n / 0x100_0000 % 256) ∷ (n / 0x1_0000 % 256) ∷ (n / 0x100 % 256) ∷ (n % 256) ∷ []

-- binary.BigEndian.Uint32
unfoldable pub uint32 : ℕ → ℕ → ℕ → ℕ → ℕ
uint32 a b c d = a * 0x100_0000 + b * 0x1_0000 + c * 0x100 + d

pub uint32-put :
    (n : ℕ)
    → IsU32 n
    → uint32 (n / 0x100_0000 % 256) (n / 0x1_0000 % 256) (n / 0x100 % 256) (n % 256) ≡ n
unfolding uint32
uint32-put n h = omega arith

pub put_uint32-IsByte : (n : ℕ) → All IsByte (put_uint32 n)
unfolding put_uint32
put_uint32-IsByte n = omega arith

-- Eight bytes, the highest first: the low four on top of the high four times 2 ^ 32.
unfoldable pub uint64 : ℕ → ℕ → ℕ → ℕ → ℕ → ℕ → ℕ → ℕ → ℕ
unfolding uint32
uint64 a b c d e f g h = uint32 a b c d * 0x1_0000_0000 + uint32 e f g h

pub uint64-put :
    (n : ℕ)
    → IsU64 n
    → let hi = n / 0x1_0000_0000 in
      let lo = n % 0x1_0000_0000 in
      uint64
        (hi / 0x100_0000 % 256)
        (hi / 0x1_0000 % 256)
        (hi / 0x100 % 256)
        (hi % 256)
        (lo / 0x100_0000 % 256)
        (lo / 0x1_0000 % 256)
        (lo / 0x100 % 256)
        (lo % 256)
      ≡ n
uint64-put n h =
    (unfold uint64 in
      omega (
        arith,
        uint32-put (n / 0x1_0000_0000) (omega arith),
        uint32-put (n % 0x1_0000_0000) (omega arith),
      ))

-- binary.BigEndian.PutUint64
unfoldable pub put_uint64 : ℕ → List ℕ
unfolding put_uint32
put_uint64 n = put_uint32 (n / 0x1_0000_0000) ++ put_uint32 (n % 0x1_0000_0000)

-- int64(u) of a uint64
unfoldable pub int64 : ℕ → ℤ
int64 u = if ltb u 0x8000_0000_0000_0000 then pos u else negsuc (0xffff_ffff_ffff_ffff - u)

-- uint64(i) of an int64
unfoldable pub from_int64 : ℤ → ℕ
from_int64 (pos n) = n
from_int64 (negsuc n) = 0xffff_ffff_ffff_ffff - n

abbrev pub IsInt64 : ℤ → Type 0
IsInt64 (pos n) = n < 0x8000_0000_0000_0000
IsInt64 (negsuc n) = n < 0x8000_0000_0000_0000

pub int64-from_int64 : (i : ℤ) → IsInt64 i → int64 (from_int64 i) ≡ i
unfolding int64 from_int64
int64-from_int64 (pos n) h = ground arith
int64-from_int64 (negsuc n) h = ground arith

pub from_int64-IsU64 : (i : ℤ) → IsInt64 i → IsU64 (from_int64 i)
unfolding from_int64
from_int64-IsU64 (pos n) h = omega arith
from_int64-IsU64 (negsuc n) h = omega arith

-- a - b on int64, which wraps around
unfoldable pub sub_int64 : ℤ → ℤ → ℤ
unfolding int64 from_int64
sub_int64 a b =
    int64 ((from_int64 a + 0x1_0000_0000_0000_0000 - from_int64 b) % 0x1_0000_0000_0000_0000)

-- n++ on uint64
abbrev pub inc_uint64 : ℕ → ℕ
inc_uint64 n = (n + 1) % 0x1_0000_0000_0000_0000

-- i * k on int64 for a constant k > 0, which wraps around
unfoldable pub mul_int64 : ℤ → ℕ → ℤ
unfolding int64 from_int64
mul_int64 i k = int64 (from_int64 i * k % 0x1_0000_0000_0000_0000)
