-- ===== src/Commands/Transport.antt =====
-- Messages on their way from the publisher to storage, over the publisher's spool, the frames of a
-- round of its drain loop, and the connection of storage's server.
use spark_trade_mft_raw_data.Prelude.{
  ℕ, ◌+◌, ◌≤◌, Bool, true, false, Option, none, some, List, [], ◌∷◌, ◌++◌, length, length-append,
  length-map, All, arith, ◌==◌, ◌≡◌, refl, sym, ap, ◌∙◌, Bool-cases, inl, inr,
}
use spark_trade_mft_raw_data.Event.{CanonicalEvent}
use spark_trade_mft_raw_data.Proto.{Json, Wire}
use spark_trade_mft_raw_data.Pipeline.{IpcMessage, RawWire}
use spark_trade_mft_raw_data.Ipc.{IpcError, Sink, err, max_frame_size}
use spark_trade_mft_raw_data.Ipc.Frame.{read_frame}
use spark_trade_mft_raw_data.Ipc.Spool.{no_faults}
use spark_trade_mft_raw_data.Ipc.Spool.Records.{file_of}
use spark_trade_mft_raw_data.Ipc.Spool.Fifo.{Holds}
use spark_trade_mft_raw_data.Ipc.Client.{Client, replay, round}
use spark_trade_mft_raw_data.Ipc.Client.Delivery.{round_delivers}
use spark_trade_mft_raw_data.Ipc.Server.{Handled, ServerConn, serve_conn}
use spark_trade_mft_raw_data.Ipc.Server.Serving.{
  Sent, bodies, messages, IsSilent, serve_conn-messages,
}
use spark_trade_mft_raw_data.Dolphin.{WalWriter}
use spark_trade_mft_raw_data.Commands.{PublisherProcess, forward_all, Storage, handle_all}
use spark_trade_mft_raw_data.Commands.Hops.{payloads_of, handle_all-payloads}
use spark_trade_mft_raw_data.Commands.Spooled.{IsSpilling, IsWithin, arrived, forward_all-Spilled}

-- what has been written to the connection of a client
abbrev pub carried : Option Sink → List ℕ
carried none = []
carried (some w) = w.written

length-empty : (bs : List ℕ) → length bs ≡ 0 → bs ≡ []
length-empty [] e = refl
length-empty (b ∷ bs) e = absurd (omega arith)

-- What a round writes to a fresh connection is the file of the spool.
round_carries :
    (bs : List (List ℕ)) (dial : Option Sink) (c : Client) (w : Sink)
    → c.closed ≡ false
    → c.connected ≡ true
    → c.wire.conn ≡ some w
    → w.written ≡ []
    → Holds bs c.spool
    → length (file_of bs) ≤ w.budget
    → carried (round dial no_faults c).wire.conn ≡ file_of bs
unfolding round replay
round_carries bs dial c w open_ up on fresh h room = elim (Bool-cases (c.spool.cur_bytes == 0)) [
  | inl p ↦
      (let idle : round dial no_faults c ≡ c = ground arith in
        let none_ : file_of bs ≡ [] =
          length-empty (file_of bs) (ground (arith, h.bytes, h.counted)) in
        ap (λ d. carried d.wire.conn) idle ∙ (ap carried on ∙ (fresh ∙ sym none_)))
  | inr p ↦
      ap (λ d. carried d.wire.conn) (round_delivers bs dial c w open_ up on h (ground arith) room)
      ∙ ap (λ t. t ++ file_of bs) fresh
]

payloads-behind :
    {raw : RawWire} (earlier sent : List (Sent raw)) (ms : List IpcMessage)
    → payloads_of (messages sent) ≡ payloads_of ms
    → payloads_of (messages (earlier ++ sent)) ≡ payloads_of (messages earlier ++ ms)
payloads-behind [] sent ms e = e
payloads-behind (s ∷ earlier) sent ms e =
    ap (λ ps. s.message.payload ∷ ps) (payloads-behind earlier sent ms e)

module _ {F J : Type 0} (json : Json J) (wire : Wire F)
    (marshal : CanonicalEvent F J → Option (List ℕ)) (wal : WalWriter (CanonicalEvent F J))
    {raw : RawWire} (handler : IpcMessage → Handled) (silent : IsSilent handler) (limit : ℕ)
    (small : limit ≤ max_frame_size) where
  -- A publisher whose client spills forwards whatever messages arrive, each of which the protobuf
  -- library writes, whatever its number, in 1 to `limit` bytes, up to 4 MiB, and reads back, while its spool has room for that: the round of the connected client that follows
  -- writes everything to the fresh connection, which takes as much as the spool may hold. The loop of
  -- storage's server then gives its handler, which may panic but does not reply, messages with which
  -- storage does what it does with those that were in the spool before, followed by the ones that
  -- arrived at the publisher: it writes the same events, with the same results. What follows on the
  -- connection ends or breaks it.
  pub spooled-handled :
      (earlier : List (Sent raw)) (ms : List (Bool × IpcMessage)) (p : PublisherProcess)
      (dial : Option Sink) (link : Sink) (fuel : ℕ) (rest : List ℕ) (e : IpcError)
      (conn : ServerConn)
      → All (IsWithin raw limit) ms
      → IsSpilling earlier (length ms) limit p.out.client
      → p.out.client.connected ≡ true
      → p.out.client.wire.conn ≡ some link
      → link.written ≡ []
      → p.out.client.spool.max_bytes ≤ link.budget
      → read_frame rest ≡ err e
      → length earlier + length ms ≤ fuel
      → conn.handled ≡ []
      → let c = (forward_all json wire marshal raw ms p).1.out.client in
        let stream = carried (round dial no_faults c).wire.conn ++ rest in
        (envs : ℕ → WalWriter.Env wal) (w : Storage json wire wal)
        → handle_all json wire wal envs (serve_conn raw handler fuel stream conn).handled w
          ≡ handle_all json wire wal envs (messages earlier ++ arrived ms) w
  spooled-handled earlier ms p dial link fuel rest e conn ls h up on fresh wide ends enough start
        envs w =
      let f = forward_all-Spilled json wire marshal limit small ms earlier p ls h in
      let c = (forward_all json wire marshal raw ms p).1.out.client in
      let all = earlier ++ f.sent in
      let carries =
        round_carries (bodies all) dial c link f.held.open_ (f.link.1 ∙ up)
          (ap (λ l. l.conn) f.link.0 ∙ on) fresh f.held.holds
          (omega (
            arith,
            wide,
            f.held.cap,
            f.link.2,
            ap length f.held.holds.bytes,
            f.held.holds.counted,
          )) in
      let served = serve_conn-messages raw handler silent all fuel rest e conn ends (
        omega (
          arith,
          enough,
          length-append earlier f.sent,
          f.count,
          length-map ms (λ (x : Bool × IpcMessage). x.1),
        )) in
      ap
        (λ s.
          handle_all json wire wal envs (serve_conn raw handler fuel (s ++ rest) conn).handled w)
        carries
      ∙ (ap (λ hs. handle_all json wire wal envs hs w)
            (served ∙ ap (λ hs. hs ++ messages all) start)
          ∙ handle_all-payloads json wire wal envs (messages all) (messages earlier ++ arrived ms) w
              (payloads-behind earlier f.sent (arrived ms) f.payloads))
