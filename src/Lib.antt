-- ===== src/Lib.antt =====
-- The raw data layer of SparkTrade. Four processes (cmd/adapter, cmd/canonicalizer, cmd/publisher,
-- cmd/storage) hand market data on over Unix domain sockets: an adapter receives the messages of an
-- exchange and sends each as a raw frame; the canonicalizer decodes it, has its worker pool turn it
-- into a canonical event, and sends that to the publisher, which sends it on to storage. Every hop
-- uses the same parts: a codec from domain types to IPC messages, a client with a queue and a disk
-- spool, and length-prefixed frames. Validation of events, an order book and a reader of binary
-- market data files stand beside the pipeline.
--
-- Files and the code that they model:
--   Prelude, Prelude/*    tests, lists, integers and words with their wrap-around; no code
--   Floats                float64 as a parameter
--   Event                 CanonicalEvent and its parts, pkg/canonicalizer/worker.go
--   Itch, Itch/*          pkg/parser/itch_mmap.go: ITCHParser (parseOne, ParseAll, CountAll) over
--                         the bytes of a mapped file, ITCHBufioReader.CountAll over a stream
--   Ipc                   io.ReadFull, io.Writer and the errors that pkg/ipc shares
--   Ipc/Frame             pkg/ipc/frame.go: ReadFrame, WriteFrame
--   Ipc/Spool             pkg/ipc/spool.go: append and drain, on a file whose operations may fail
--   Ipc/Client            pkg/ipc/client.go: Send, writeFrame, breakConn, connect, drainLoop,
--                         Flush, Stop; Step and Reach are their interleavings
--   Ipc/Server            pkg/ipc/server.go: serveConn, safeHandle; Ipc/Server/Lifecycle: Listen,
--                         acceptLoop, trackConn, Stop, as steps of their goroutines
--   Workerpool            pkg/workerpool/pool.go: Submit, worker, processMessage, spawnWorker,
--                         checkScale, Stop, cut into the steps that a goroutine takes alone;
--                         Workerpool/Steps performs a list of such actions, in any order
--   Orderbook             pkg/orderbook/lockfree.go: the lock-free book, its SetBids and SetAsks cut
--                         into their two steps, and the book behind a mutex
--   Proto                 pkg/canonicalizer/proto.go: ToProto, FromProto, MarshalProto,
--                         UnmarshalProto
--   Pipeline              pkg/pipeline/codec.go: EncodeRaw, DecodeRaw, EncodeCanonical,
--                         DecodeCanonical, with pkg/ipc/message.go
--   Validation            pkg/validation/validator.go: Validate, its five layers, its counters
--   Wal                   what pkg/storage/wal.go and wal_batched.go share: the files, bufio.Writer,
--                         rotateLocked, Replay and readFile; Wal/Reading: what a cut file gives
--   Wal/Sync              pkg/storage/wal.go: Start, Write, rotationChecker, Stop
--   Wal/Batched           pkg/storage/wal_batched.go: Start, Write, Flush, rotateLocked,
--                         rotationChecker, Stop
--   Wal/Upkeep            CleanOld and IsHealthy of pkg/storage/wal.go, NewWALWriter of
--                         pkg/storage/wal_writer.go
--   Axiom                 pkg/axiom/sanitizer.go
--   Mapper                pkg/mapper/mapper.go: NewSymbolMapper, ToCanonical, ToProvider, IsKnown
--   Canonicalizer         pkg/canonicalizer/worker.go: Reset, fillUnknown, the event pool of
--                         pkg/allocator/pool.go; Canonicalizer/Worker: the parsers of Binance and
--                         IB, with ParseTradeInto of pkg/parser/sonic.go; Canonicalizer/Mt5:
--                         pkg/canonicalizer/mt5.go; Canonicalizer/Process: Process, and the output
--                         loop of cmd/canonicalizer/main.go
--   Dolphin               pkg/storage/dolphindb.go: Write, flush, Connect, replayWAL, over any log of
--                         wal_writer.go; Dolphin/Durable: over the synchronous log;
--                         Dolphin/Reconnect: reconnectLoop; Dolphin/Script: ddbString,
--                         buildInsertScript
--   Supervisor            pkg/process/process.go: Start, monitor, backoffWait, Stop;
--                         Supervisor/Manager: manager.go
--   Config                pkg/config/config.go: Config; Config/Defaults: DefaultConfig and
--                         applyDefaults; Config/Load: Load, applyEnv, ParseDur
--   Adapter               pkg/adapter/adapter.go and the state of binance.go and ib.go;
--                         Adapter/Loop: their receive loop, reconnect, Start and Stop, which differ
--                         in the connection alone; Adapter/Binance, Adapter/Ib: Connect, safeRead
--                         and the other goroutines of each; Adapter/Mt5: mt5_zmq.go
--   Publisher             pkg/publisher/zmq.go: Start, Publish, the heartbeat, Stop, IsHealthy
--   Commands              sendRaw and fanIn of cmd/adapter/main.go, the handlers of the inbound
--                         servers of cmd/publisher/main.go and cmd/storage/main.go
--   Tests                 runs at concrete inputs
--
-- State is passed along: an operation takes its component's record and returns it changed, with a
-- result for the errors. A lock that a method holds throughout makes it one step; where
-- goroutines share state without one lock, as in the client and the pool, each step between two
-- accesses is an operation of its own, and the steps may come in any order. An iteration of an
-- adapter's receive loop and a call of Publish are one step each, as is checkScale up to its loop,
-- Start and checkScale of the pool call spawnWorker one behind the other, and a stopped pool and its
-- cancelled context are one flag.
--
-- Bytes are numbers; a theorem that needs them below 256 says so. Machine words keep their
-- wrap-around. Streams and files are lists of bytes, and a connection or a disk is what it was
-- given with the number of bytes that it still takes. The loops over files run on fuel, one more
-- than the bytes that they read, which is enough as every record takes one byte or more; a result
-- of its own stands for fuel run out.
--
-- Parameters, with hypotheses where a theorem needs them: protobuf and encoding/json (what they
-- wrote of a value reads back as the value), the stamp in the name of a log file (it does not go
-- back), float64 (quotients of counts below 2 ^ 53 are ordered as the fractions), the clock's
-- readings, strings.ToLower, the JSON libraries, the YAML library and the environment of the
-- configuration, the web socket and ZeroMQ libraries of the adapters and the publisher (what they
-- return is given), the processor of the pool (it keeps the message in what it returns), the file
-- that golang.org/x/exp/mmap maps.
--
-- Not modelled: deadlines, the waits of the IPC client, lists of error texts but for the
-- adapters', metrics and logging; Stats of the components; the signals and health probes of the
-- process supervisor; the HTTP endpoints of pkg/health; the script that makes the tables of the
-- database; the wiring of the commands; the network, ZeroMQ and database I/O; generated code but
-- for its types. These are input and output, or only copy what the parts above keep.
pub mod Prelude
pub mod Floats
pub mod Event
pub mod Validation
pub mod Proto
pub mod Pipeline
pub mod Workerpool
pub mod Orderbook
pub mod Wal
pub mod Axiom
pub mod Mapper
pub mod Dolphin
pub mod Supervisor
pub mod Config
pub mod Adapter
pub mod Publisher
pub mod Commands
pub mod Canonicalizer
pub mod Itch
pub mod Ipc
mod Tests
