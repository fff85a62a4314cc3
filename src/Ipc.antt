-- ===== src/Ipc.antt =====
-- pkg/ipc: the transport between the processes, frames over Unix domain sockets with an on-disk
-- spool. Its errors, the byte streams it reads, and the connections and files it writes.
pub mod Frame
pub mod Spool
pub mod Client
pub mod Server
use spark_trade_mft_raw_data.Prelude.{
  ℕ, ◌+◌, ◌-◌, ◌*◌, ◌≡◌, refl, ◌⊎◌, inl, inr, Option, none, some, List, [], ◌∷◌, ◌++◌, ltb,
  if◌then◌else◌, length, take, drop,
}

pub data IpcError : Type 0 where
  eof unexpected_eof frame_too_large write_failed spool_full client_closed : IpcError
  nil_message no_connection marshal_failed seek_failed truncate_failed : IpcError

pub data Result {ℓ} (A : Type ℓ) : Type ℓ where
  ok : A → Result A
  err : IpcError → Result A

pub Result-cases {ℓ} :
    {A : Type ℓ} (r : Result A) → ((a : A) × (r ≡ ok a)) ⊎ ((e : IpcError) × (r ≡ err e))
Result-cases (ok a) = inl (a, refl)
Result-cases (err e) = inr (e, refl)

-- io.ReadFull on a stream that ends: the bytes and the stream behind them. It fails with `eof`
-- where nothing is left, and with `unexpected_eof` where less than `n` bytes are.
unfoldable pub read_full : ℕ → List ℕ → Result (List ℕ × List ℕ)
read_full n s =
    if ltb (length s) n
    then (elim s [ [] ↦ err eof | _ ∷ _ ↦ err unexpected_eof ])
    else ok (take n s, drop n s)

-- What a connection or a file has taken, and how many bytes it takes before its writes fail.
pub record Sink : Type 0 where
  pub written : List ℕ
  pub budget : ℕ

-- Write of io.Writer: the bytes written, an error if they are not all, and the sink after it.
unfoldable pub write : List ℕ → Sink → ℕ × Option IpcError × Sink
write bs w =
    if ltb w.budget (length bs)
    then (
      w.budget,
      some write_failed,
      record w { written = w.written ++ take w.budget bs; budget = 0 },
    )
    else (length bs, none, record w { written = w.written ++ bs; budget = w.budget - length bs })

-- maxFrameSize: 4 MiB
abbrev pub max_frame_size : ℕ
max_frame_size = 4 * 1024 * 1024

abbrev pub len_field_size : ℕ
len_field_size = 4
