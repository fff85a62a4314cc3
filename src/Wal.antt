-- ===== src/Wal.antt =====
-- What the two write-ahead logs of pkg/storage share (wal.go, wal_batched.go): the files of the
-- directory, the bufio.Writer of the current one, and the reader of a file (readFile, readWALFile).
pub mod Reading
pub mod Sync
pub mod Batched
pub mod Upkeep
use spark_trade_mft_raw_data.Prelude.{
  ℕ, zero, suc, ◌+◌, ◌-◌, ◌*◌, ◌%◌, Bool, true, false, ◌||◌, not, Option, none, some, List, [], ◌∷◌,
  ◌++◌, length, take, drop, ltb, leb, ◌==◌, if◌then◌else◌,
}
use spark_trade_mft_raw_data.Prelude.Word.{inc_uint64}
use spark_trade_mft_raw_data.Ipc.{IpcError, Sink, write}

pub data WalError : Type 0 where
  not_running marshal_failed no_writer write_failed sync_failed open_failed too_long : WalError

-- A file: its name as a number, 1000000 times the time stamp plus the six digits of the counter,
-- which orders as the names do; what it has taken; and how many of those bytes are on the disk.
pub record WalFile : Type 0 where
  pub name : ℕ
  pub sink : Sink
  pub synced : ℕ
  pub is_open : Bool

-- bufio.Writer over a file; `failed` is its error, which stays
pub record Writer : Type 0 where
  pub file : WalFile
  pub buf : List ℕ
  pub failed : Bool

abbrev pub buf_size : ℕ
buf_size = 4096

pub wrote : WalFile → ℕ × Option IpcError × Sink → ℕ × Bool × WalFile
wrote f (n, none, s) = (n, false, record f { sink = s })
wrote f (n, some e, s) = (n, true, record f { sink = s })

-- Write of os.File, and whether it failed; a closed file takes nothing
unfoldable pub os_write : List ℕ → WalFile → ℕ × Bool × WalFile
unfolding wrote write
os_write bs f = if f.is_open then wrote f (write bs f.sink) else (0, true, f)

-- Sync of os.File, and whether it failed
unfoldable pub os_sync : Bool → WalFile → Bool × WalFile
os_sync fails f =
    if not f.is_open || fails
    then (true, f)
    else (false, record f { synced = length f.sink.written })

unfoldable pub flushed : Writer → ℕ × Bool × WalFile → Bool × Writer
flushed w (n, true, f) = (true, record w { file = f; buf = drop n w.buf; failed = true })
flushed w (n, false, f) = (false, record w { file = f; buf = [] })

-- Flush of bufio.Writer
unfoldable pub bufio_flush : Writer → Bool × Writer
unfolding os_write flushed
bufio_flush w =
    if w.failed
    then (true, w)
    else if length w.buf == 0
    then (false, w)
    else flushed w (os_write w.buf w.file)

unfoldable pub sent_on : Writer → ℕ × Bool × WalFile → Bool × Writer
sent_on w (n, failed, f) = (failed, record w { file = f; failed = failed })

unfoldable pub overflowed : List ℕ → Bool × Writer → Bool × Writer
unfolding os_write sent_on
overflowed rest (true, w) = (true, w)
overflowed rest (false, w) =
    if ltb buf_size (length rest)
    then sent_on w (os_write rest w.file)
    else (false, record w { buf = rest })

-- Write of bufio.Writer: what does not fit the buffer fills it, is flushed with it, and goes to the
-- file at once where it is longer than the buffer.
unfoldable pub bufio_write : List ℕ → Writer → Bool × Writer
unfolding os_write sent_on overflowed bufio_flush
bufio_write bs w =
    if w.failed
    then (true, w)
    else if leb (length bs) (buf_size - length w.buf)
    then (false, record w { buf = w.buf ++ bs })
    else if length w.buf == 0
    then sent_on w (os_write bs w.file)
    else (let room = buf_size - length w.buf in
        overflowed (drop room bs) (bufio_flush (record w { buf = w.buf ++ take room bs })))

-- filepath.Glob gives the files in the order of their names.
unfoldable pub insert_file : WalFile → List WalFile → List WalFile
insert_file f [] = f ∷ []
insert_file f (g ∷ gs) = if ltb f.name g.name then f ∷ g ∷ gs else g ∷ insert_file f gs

beside : WalFile → WalFile × List WalFile → WalFile × List WalFile
beside g (f, gs) = (f, g ∷ gs)

-- os.OpenFile with O_CREATE and O_APPEND, on a disk with the given room: the file, taken from the
-- others or new
unfoldable pub open_file : ℕ → ℕ → List WalFile → WalFile × List WalFile
unfolding beside
open_file name room [] = (
  record { name = name; sink = record { written = []; budget = room }; synced = 0; is_open = true },
  [],
)
open_file name room (g ∷ gs) =
    if g.name == name
    then (record g { sink = record g.sink { budget = room }; is_open = true }, gs)
    else beside g (open_file name room gs)

-- The part of a log that both kinds have. The int64 counters of one file are plain numbers.
pub record Log : Type 0 where
  pub max_file_size : ℕ
  pub max_messages : ℕ
  pub files : List WalFile
  pub current : Option Writer
  pub size : ℕ
  pub messages : ℕ
  pub rotation_seq : ℕ
  pub running : Bool
  pub total_written : ℕ
  pub total_rotations : ℕ

abbrev pub new_log : ℕ → ℕ → Log
new_log max_file_size max_messages = record {
  max_file_size = max_file_size;
  max_messages = max_messages;
  files = [];
  current = none;
  size = 0;
  messages = 0;
  rotation_seq = 0;
  running = false;
  total_written = 0;
  total_rotations = 0;
}

-- shouldRotate
unfoldable pub should_rotate : Log → Bool
should_rotate log = leb log.max_file_size log.size || leb log.max_messages log.messages

-- What the environment does in a step: whether Sync and OpenFile fail, and a new file's room.
pub record Faults : Type 0 where
  pub sync_fails : Bool
  pub open_fails : Bool
  pub room : ℕ

abbrev pub close_file : Bool × Writer → Writer
close_file (failed, w) = record w { file = record w.file { is_open = false } }

-- Flush and Close of the current file, errors ignored
unfoldable pub closed : Option Writer → Option Writer
unfolding bufio_flush
closed none = none
closed (some w) = some (close_file (bufio_flush w))

unfoldable pub all_files : Option Writer → List WalFile → List WalFile
unfolding insert_file
all_files none fs = fs
all_files (some w) fs = insert_file w.file fs

opened : Log → WalFile × List WalFile → Log
opened log (f, fs) = record log {
  files = fs;
  current = some (record { file = f; buf = []; failed = false });
  size = 0;
  messages = 0;
  total_rotations = inc_uint64 log.total_rotations;
}

module _ (clock : ℕ → ℕ) where
  -- the name of the file of a rotation, with the clock's stamp at that rotation
  abbrev pub file_name : ℕ → ℕ
  file_name seq = clock seq * 1_000_000 + seq % 1_000_000

  -- rotateLocked: the counter goes up, also if the new file cannot be opened
  unfoldable pub rotate : Faults → Log → Option WalError × Log
  unfolding closed all_files opened open_file
  rotate faults log =
      let w = closed log.current in
      let seq = inc_uint64 log.rotation_seq in
      if faults.open_fails
      then (some open_failed, record log { current = w; rotation_seq = seq })
      else (
        none,
        opened (record log { rotation_seq = seq })
            (open_file (file_name seq) faults.room (all_files w log.files)),
      )

-- ScanLines drops a carriage return at the end of a line.
unfoldable pub drop_cr : List ℕ → List ℕ
drop_cr [] = []
drop_cr (b ∷ []) = if b == 13 then [] else b ∷ []
drop_cr (b ∷ c ∷ bs) = b ∷ drop_cr (c ∷ bs)

abbrev pub before : List ℕ → List (List ℕ) × Bool → List (List ℕ) × Bool
before l (ls, e) = (l ∷ ls, e)

-- bufio.Scanner with a limit for the line: the lines, and whether it stopped at one that fills the
-- buffer without an end
unfoldable pub scan : ℕ → List ℕ → List ℕ → List (List ℕ) × Bool
unfolding drop_cr
scan limit acc [] = (if length acc == 0 then [] else drop_cr acc ∷ [], false)
scan limit acc (b ∷ bs) = elim (b == 10) [
  | true ↦ before (drop_cr acc) (scan limit [] bs)
  | false ↦ elim (leb limit (suc (length acc))) [
    | true ↦ ([], true)
    | false ↦ scan limit (acc ++ (b ∷ [])) bs
  ]
]

abbrev pub max_line : ℕ
max_line = 10 * 1024 * 1024

-- encoding/json for an event: Marshal, and Unmarshal into a new event
pub record EventJson (Ev : Type 0) : Type 0 where
  pub marshal : Ev → Option (List ℕ)
  pub unmarshal : List ℕ → Option Ev

module _ {Ev : Type 0} (json : EventJson Ev) where
  unfoldable pub keep_event : Option Ev → List Ev → List Ev
  keep_event none evs = evs
  keep_event (some ev) evs = ev ∷ evs

  -- the loop of readFile: a line that is empty or malformed is skipped
  unfoldable pub decode_lines : List (List ℕ) → List Ev
  unfolding keep_event
  decode_lines [] = []
  decode_lines (l ∷ ls) =
      let evs = decode_lines ls in if length l == 0 then evs else keep_event (json.unmarshal l) evs

  -- the events of a file for Replay, which drops those of a file with an error
  unfoldable pub file_events : List ℕ → List Ev
  unfolding decode_lines scan
  file_events bytes =
      if (scan max_line [] bytes).1 then [] else decode_lines (scan max_line [] bytes).0

  -- Replay on files that hold the given bytes
  unfoldable pub replay : List (List ℕ) → List Ev
  unfolding file_events
  replay [] = []
  replay (bytes ∷ rest) = file_events bytes ++ replay rest
