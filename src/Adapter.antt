-- ===== src/Adapter.antt =====
-- pkg/adapter: the adapters of the three sources. adapter.go, and the state that binance.go and ib.go
-- keep alike: a parameter `C` is the type of the connection. `cancelled` is whether the adapter's own
-- context is; time stamps other than a message's are left out.
pub mod Loop
pub mod Ib
pub mod Binance
pub mod Mt5
use Prim.Native.String.{◌++◌ as str_append}
use spark_trade_mft_raw_data.Prelude.{
  ℕ, zero, suc, ◌+◌, ◌-◌, ◌%◌, String, Bool, true, false, Option, none, some, List, [], ◌∷◌, ◌++◌,
  length, drop, get_elem?, ltb, leb, ◌==◌, if◌then◌else◌,
}
use spark_trade_mft_raw_data.Prelude.Int.{ℤ, pos, negsuc}
use spark_trade_mft_raw_data.Prelude.Word.{inc_uint64}

-- adapter.go: ErrorType and AdapterError
pub data ErrorType : Type 0 where
  error_unknown error_connection error_protocol error_timeout : ErrorType
  error_authentication error_rate_limit : ErrorType

pub record AdapterError : Type 0 where
  pub typ : ErrorType
  pub message : String
  pub source : String
  pub cause : Option String

unfoldable pub error_text : AdapterError → String
error_text e = elim e.cause [
  | none ↦ str_append e.source (str_append ": " e.message)
  | some c ↦ str_append e.source (str_append ": " (str_append e.message (str_append ": " c)))
]

-- the errors that an adapter keeps; `attempt_failed` has the number of the attempt
pub data Failure : Type 0 where
  adapter_error : AdapterError → Failure
  plain : String → Failure
  attempt_failed : ℕ → Failure → Failure

-- NewAdapterError
abbrev pub new_adapter_error : ErrorType → String → String → Option String → Failure
new_adapter_error typ source message cause =
    adapter_error (record { typ = typ; message = message; source = source; cause = cause })

pub record Adapter (C : Type 0) : Type 0 where
  pub symbols : List String
  pub conn : Option C
  pub connected : Bool
  pub running : Bool
  pub messages_recv : ℕ
  pub reconnect_count : ℤ
  pub reconnect_attempts : ℤ
  pub backoff_seconds : List ℤ
  pub cancelled : Bool
  pub errors : List Failure

abbrev pub new_adapter : {C : Type 0} → List String → ℤ → List ℤ → Adapter C
new_adapter symbols reconnect_attempts backoff_seconds = record {
  symbols = symbols;
  conn = none;
  connected = false;
  running = false;
  messages_recv = 0;
  reconnect_count = pos 0;
  reconnect_attempts = reconnect_attempts;
  backoff_seconds = backoff_seconds;
  cancelled = false;
  errors = [];
}

-- addError appends, and drops the first of more than ten
unfoldable pub keep_ten : Failure → List Failure → List Failure
keep_ten f es = let all = es ++ f ∷ [] in if ltb 10 (length all) then drop 1 all else all

unfoldable pub add_error : {C : Type 0} → Failure → Adapter C → Adapter C
unfolding keep_ten
add_error f a = record a { errors = keep_ten f a.errors }

-- n + 1 on int32
unfoldable pub inc_int32 : ℤ → ℤ
inc_int32 (pos n) = if n == 0x7fff_ffff then negsuc 0x7fff_ffff else pos (n + 1)
inc_int32 (negsuc zero) = pos 0
inc_int32 (negsuc (suc n)) = negsuc n

-- n + ^uint64(0), the same as n - 1 on uint64
abbrev pub dec_uint64 : ℕ → ℕ
dec_uint64 n = (n + 0xffff_ffff_ffff_ffff) % 0x1_0000_0000_0000_0000

-- The number of rounds of `for i := 0; i < n; i++`
abbrev pub rounds : ℤ → ℕ
rounds (pos n) = n
rounds (negsuc n) = 0

-- backoffSeconds at the attempt, the last one past its end; none where the index is out of range,
-- which is a panic: the list is empty.
unfoldable pub backoff_at : List ℤ → ℕ → Option ℤ
backoff_at ss attempt =
    if leb (length ss) attempt then get_elem? ss (length ss - 1) else get_elem? ss attempt

-- Health without its time stamps, and the integer that it has for the count of reconnects
pub record HealthStatus : Type 0 where
  pub connected : Bool
  pub messages_recv : ℕ
  pub errors : List Failure
  pub reconnect_count : ℤ

abbrev pub health : {C : Type 0} → Adapter C → HealthStatus
health a = record {
  connected = a.connected;
  messages_recv = a.messages_recv;
  errors = a.errors;
  reconnect_count = a.reconnect_count;
}
