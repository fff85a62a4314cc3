-- ===== src/Commands/Hops.antt =====
-- A message on its way through the publisher to storage.
use spark_trade_mft_raw_data.Prelude.{
  ℕ, suc, All, ◌+◌, ◌<◌, ◌≤◌, Bool, false, Option, some, List, [], ◌∷◌, ◌++◌, map, length,
  length-map, length-append, append_assoc, append-nil, arith, ◌==◌, ◌≡◌, refl, sym, ap, ◌∙◌, subst,
}
use spark_trade_mft_raw_data.Prelude.Word.{inc_uint64, IsU64}
use spark_trade_mft_raw_data.Event.{CanonicalEvent}
use spark_trade_mft_raw_data.Proto.{Json, Wire}
use spark_trade_mft_raw_data.Pipeline.{
  IpcMessage, RawWire, new_message, unmarshal_ipc, decode_canonical,
}
use spark_trade_mft_raw_data.Ipc.Client.{Client}
use spark_trade_mft_raw_data.Ipc.Client.Undelivered.{send-queued}
use spark_trade_mft_raw_data.Dolphin.{WalWriter}
use spark_trade_mft_raw_data.Commands.{
  send_to, PublisherProcess, forward, forward_all, Storage, handle_event, handle_all,
}

abbrev pub canonical : List ℕ → ℕ → IpcMessage
canonical payload n = record { typ = "canonical"; payload = payload; seq = n }

-- What the protobuf library does with an IPC message that has this payload, whatever its number, a
-- uint64: it writes bytes, at least one, and reads the message back from them.
pub record Carried (raw : RawWire) (payload : List ℕ) : Type 0 where
  pub bytes : ℕ → List ℕ
  pub writes : (n : ℕ) → IsU64 n → raw.marshal_message (canonical payload n) ≡ some (bytes n)
  pub filled : (n : ℕ) → IsU64 n → 0 < length (bytes n)
  pub reads : (n : ℕ) → IsU64 n → raw.unmarshal_message (bytes n) ≡ some (canonical payload n)

-- the message of an arrival can be forwarded
abbrev pub IsCarried : RawWire → Bool × IpcMessage → Type 0
IsCarried raw x = Carried raw x.1.payload

abbrev pub payloads_of : List IpcMessage → List (List ℕ)
payloads_of ms = map (λ (m : IpcMessage). m.payload) ms

-- the client keeps everything in its queue, and has room for `k` messages
pub record HasRoom (k : ℕ) (c : Client) : Type 0 where
  pub open_ : c.closed ≡ false
  pub calm : c.spilling ≡ false
  pub room : length c.queue + k ≤ c.queue_size

-- Behind what was in the queue of `c`, the queue of `c'` holds a message for each one of `ms`, in their
-- order and with their payloads.
pub record Forwarded (raw : RawWire) (ms : List IpcMessage) (c c' : Client) : Type 0 where
  pub bodies : List (List ℕ)
  pub messages : List IpcMessage
  pub queue : c'.queue ≡ c.queue ++ bodies
  pub reads : map (unmarshal_ipc raw) bodies ≡ map some messages
  pub payloads : payloads_of messages ≡ payloads_of ms

module _ (raw : RawWire) where
  send_to-queued :
      {payload : List ℕ} (t : Carried raw payload) (n k : ℕ) (c : Client)
      → IsU64 n
      → HasRoom (suc k) c
      → (send_to raw (some (canonical payload n), n) c).client
        ≡ record c { queue = c.queue ++ (t.bytes n ∷ []) }
  unfolding send_to
  send_to-queued {payload} t n k c u r =
      let small : length c.queue < c.queue_size = omega (arith, r.room) in
      ap (λ s. s.1)
        (send-queued raw.marshal_message (canonical payload n) (t.bytes n) c r.open_ r.calm small
          (t.writes n u))

  HasRoom-queued :
      (k : ℕ) (body : List ℕ) (c : Client)
      → HasRoom (suc k) c
      → HasRoom k (record c { queue = c.queue ++ (body ∷ []) })
  HasRoom-queued k body c r = record {
    open_ = r.open_;
    calm = r.calm;
    room = omega (arith, r.room, length-append c.queue (body ∷ []));
  }

  pub unmarshal-bytes :
      {payload : List ℕ} (t : Carried raw payload) (n : ℕ)
      → IsU64 n
      → unmarshal_ipc raw (t.bytes n) ≡ some (canonical payload n)
  unfolding unmarshal_ipc
  unmarshal-bytes t n u =
      let l : (length (t.bytes n) == 0) ≡ false = ground (arith, t.filled n u) in
      rw (l, t.reads n u)

  module _ {F J : Type 0} (json : Json J) (wire : Wire F)
      (marshal : CanonicalEvent F J → Option (List ℕ)) where
    one_more :
        (m : IpcMessage) (t : Carried raw m.payload) (ms : List IpcMessage) (n : ℕ)
        (c d c' : Client)
        → IsU64 n
        → d ≡ record c { queue = c.queue ++ (t.bytes n ∷ []) }
        → Forwarded raw ms d c'
        → Forwarded raw (m ∷ ms) c c'
    one_more m t ms n c d c' u e f = record {
      bodies = t.bytes n ∷ f.bodies;
      messages = canonical m.payload n ∷ f.messages;
      queue =
          f.queue
          ∙ (ap (λ (x : Client). x.queue ++ f.bodies) e
              ∙ append_assoc c.queue (t.bytes n ∷ []) f.bodies);
      reads = λ i. unmarshal-bytes t n u i ∷ f.reads i;
      payloads = λ i. m.payload ∷ f.payloads i;
    }

    forward_all-Forwarded :
        (ms : List (Bool × IpcMessage)) (p : PublisherProcess)
        → All (IsCarried raw) ms
        → HasRoom (length ms) p.out.client
        → Forwarded raw
            (map (λ (x : Bool × IpcMessage). x.1) ms)
            p.out.client
            (forward_all json wire marshal raw ms p).1.out.client
    unfolding forward_all forward new_message
    forward_all-Forwarded [] p ts r = record {
      bodies = [];
      messages = [];
      queue = sym (append-nil p.out.client.queue);
      reads = refl;
      payloads = refl;
    }
    forward_all-Forwarded ((takes, m) ∷ ms) p (t, ts) r =
        let n = inc_uint64 p.out.seq in
        let c = p.out.client in
        let s = forward json wire marshal raw takes m p in
        let u : IsU64 n = omega arith in
        let e = send_to-queued t n (length ms) c u r in
        one_more m t (map (λ (x : Bool × IpcMessage). x.1) ms) n c s.1.out.client
          (forward_all json wire marshal raw ms s.1).1.out.client u e
          (forward_all-Forwarded ms s.1 ts
            (subst (HasRoom (length ms)) (sym e) (HasRoom-queued (length ms) (t.bytes n) c r)))

module _ {F J : Type 0} (json : Json J) (wire : Wire F) (wal : WalWriter (CanonicalEvent F J)) where
  handle_all-canonical :
      (envs : ℕ → WalWriter.Env wal) (ms : List IpcMessage) (w : Storage json wire wal)
      → handle_all json wire wal envs ms w
        ≡ handle_all json wire wal envs (map (λ p. canonical p 0) (payloads_of ms)) w
  unfolding handle_all handle_event decode_canonical
  handle_all-canonical envs [] w = refl
  handle_all-canonical envs (m ∷ ms) w =
      let same : length (map (λ p. canonical p 0) (payloads_of ms)) ≡ length ms =
        length-map (payloads_of ms) (λ p. canonical p 0)
        ∙ length-map ms (λ (m : IpcMessage). m.payload) in
      let s = handle_event json wire wal (envs (length ms)) m w in
      ap (λ (r : List (CanonicalEvent F J) × Storage json wire wal). (s.0 ++ r.0, r.1))
        (handle_all-canonical envs ms s.1)
      ∙ ap
          (λ k.
            let t = handle_event json wire wal (envs k) m w in
            let rest =
              handle_all json wire wal envs (map (λ p. canonical p 0) (payloads_of ms)) t.1 in
            (t.0 ++ rest.0, rest.1))
          (sym same)

  -- storage looks at the payloads alone
  pub handle_all-payloads :
      (envs : ℕ → WalWriter.Env wal) (ms ns : List IpcMessage) (w : Storage json wire wal)
      → payloads_of ms ≡ payloads_of ns
      → handle_all json wire wal envs ms w ≡ handle_all json wire wal envs ns w
  handle_all-payloads envs ms ns w e =
      handle_all-canonical envs ms w
      ∙ (ap (λ ps. handle_all json wire wal envs (map (λ q. canonical q 0) ps) w) e
          ∙ sym (handle_all-canonical envs ns w))

module _ {F J : Type 0} (json : Json J) (wire : Wire F)
    (marshal : CanonicalEvent F J → Option (List ℕ)) (wal : WalWriter (CanonicalEvent F J))
    (raw : RawWire) where
  -- A publisher whose client keeps everything in its queue and has room there puts behind what is in
  -- it, for whatever messages arrive and whatever becomes of ZeroMQ, the bytes of one message for
  -- each, in their order and with the payload byte for byte; and storage does with these messages,
  -- read from those bytes, what it does with the ones that arrived at the publisher: it writes the
  -- same events, with the same results. The protobuf library writes each of
  -- these messages and reads what it wrote.
  pub forward_all-handled :
      (ms : List (Bool × IpcMessage)) (p : PublisherProcess)
      → All (IsCarried raw) ms
      → HasRoom (length ms) p.out.client
      → let arrived = map (λ (x : Bool × IpcMessage). x.1) ms in
        (f : Forwarded raw arrived p.out.client
          (forward_all json wire marshal raw ms p).1.out.client)
        × ((envs : ℕ → WalWriter.Env wal) (w : Storage json wire wal)
            → handle_all json wire wal envs f.messages w ≡ handle_all json wire wal envs arrived w)
  forward_all-handled ms p ts r =
      let f = forward_all-Forwarded raw json wire marshal ms p ts r in
      (
        f,
        λ envs w.
            handle_all-payloads json wire wal envs f.messages
              (map (λ (x : Bool × IpcMessage). x.1) ms) w f.payloads,
      )
