-- ===== src/Commands/Spooled.antt =====
-- Messages on their way from the publisher into the spool of its client.
use spark_trade_mft_raw_data.Prelude.{
  ℕ, suc, ◌+◌, ◌*◌, ◌≤◌, Bool, true, false, Option, some, List, [], ◌∷◌, ◌++◌, map, length,
  length-append, All, append_assoc, append-nil, arith, ◌≡◌, refl, sym, ap, ◌∙◌, subst,
}
use spark_trade_mft_raw_data.Prelude.Word.{inc_uint64, put_uint32, IsU64}
use spark_trade_mft_raw_data.Event.{CanonicalEvent}
use spark_trade_mft_raw_data.Proto.{Json, Wire}
use spark_trade_mft_raw_data.Pipeline.{IpcMessage, RawWire, new_message}
use spark_trade_mft_raw_data.Ipc.{max_frame_size}
use spark_trade_mft_raw_data.Ipc.Frame.RoundTrip.{frame, put, length-put_uint32}
use spark_trade_mft_raw_data.Ipc.Spool.{rec_header}
use spark_trade_mft_raw_data.Ipc.Spool.Records.{IsBody}
use spark_trade_mft_raw_data.Ipc.Spool.Fifo.{Holds, append-put, append-Holds}
use spark_trade_mft_raw_data.Ipc.Client.{Client}
use spark_trade_mft_raw_data.Ipc.Client.Delivery.{send-spilled}
use spark_trade_mft_raw_data.Ipc.Server.Serving.{Sent, bodies, messages}
use spark_trade_mft_raw_data.Commands.{send_to, PublisherProcess, forward, forward_all}
use spark_trade_mft_raw_data.Commands.Hops.{canonical, Carried, payloads_of, unmarshal-bytes}

-- An open client that spills: its spool holds what was sent, and takes `k` more bodies of at most
-- `limit` bytes each.
pub record IsSpilling {raw : RawWire} (sent : List (Sent raw)) (k limit : ℕ) (c : Client)
    : Type 0 where
  pub open_ : c.closed ≡ false
  pub spilling : c.spilling ≡ true
  pub holds : Holds (bodies sent) c.spool
  pub cap : c.spool.cur_bytes + k * (rec_header + limit) ≤ c.spool.max_bytes
  pub room : k * (rec_header + limit) ≤ c.spool.file.budget

-- the message of an arrival can be forwarded, in at most `limit` bytes
pub record IsWithin (raw : RawWire) (limit : ℕ) (x : Bool × IpcMessage) : Type 0 where
  pub carried : Carried raw x.1.payload
  pub fits : (n : ℕ) → IsU64 n → length (carried.bytes n) ≤ limit

abbrev pub arrived : List (Bool × IpcMessage) → List IpcMessage
arrived ms = map (λ (x : Bool × IpcMessage). x.1) ms

bodies-append :
    {raw : RawWire} (ss ts : List (Sent raw)) → bodies (ss ++ ts) ≡ bodies ss ++ bodies ts
bodies-append [] ts = refl
bodies-append (s ∷ ss) ts = ap (λ bs. s.body ∷ bs) (bodies-append ss ts)

messages-append :
    {raw : RawWire} (ss ts : List (Sent raw)) → messages (ss ++ ts) ≡ messages ss ++ messages ts
messages-append [] ts = refl
messages-append (s ∷ ss) ts = ap (λ ms. s.message ∷ ms) (messages-append ss ts)

length-bodies : {raw : RawWire} (ss : List (Sent raw)) → length (bodies ss) ≡ length ss
length-bodies [] = refl
length-bodies (s ∷ ss) = ap suc (length-bodies ss)

-- the rest of a client, which a send that goes to the spool leaves as it was
abbrev pub SameLink : Client → Client → Type 0
SameLink c d =
    (d.wire ≡ c.wire) × (d.connected ≡ c.connected) × (d.spool.max_bytes ≡ c.spool.max_bytes)

module _ {raw : RawWire} (limit : ℕ) (small : limit ≤ max_frame_size) where
  abbrev sent_as :
      {payload : List ℕ} (t : Carried raw payload) (n : ℕ)
      → IsU64 n
      → length (t.bytes n) ≤ limit
      → Sent raw
  sent_as {payload} t n u l = record {
    body = t.bytes n;
    message = canonical payload n;
    is_body = (t.filled n u, omega (arith, l, small));
    reads = unmarshal-bytes raw t n u;
  }

  -- such a message is appended to the spool
  spooled :
      (earlier : List (Sent raw)) (k : ℕ) {payload : List ℕ} (t : Carried raw payload) (n : ℕ)
      (c : Client) (u : IsU64 n) (l : length (t.bytes n) ≤ limit)
      → IsSpilling earlier (suc k) limit c
      → let d = (send_to raw (some (canonical payload n), n) c).client in
        IsSpilling (earlier ++ (sent_as t n u l ∷ [])) k limit d × SameLink c d
  unfolding send_to
  spooled earlier k {payload} t n c u l h =
      let body = t.bytes n in
      let cap : c.spool.cur_bytes + (rec_header + length body) ≤ c.spool.max_bytes =
        omega (arith, h.cap, l) in
      let room : rec_header + length body ≤ c.spool.file.budget = omega (arith, h.room, l) in
      let one : IsBody body = (t.filled n u, omega (arith, l, small)) in
      let step =
        send-spilled raw.marshal_message (canonical payload n) body c h.open_ h.spilling
          (t.writes n u) (omega (arith, l, small)) cap room in
      let held =
        subst (Holds (bodies earlier ++ (body ∷ [])))
          (ap (λ r. r.1) (append-put body c.spool (omega (arith, l, small)) cap room))
          (append-Holds (bodies earlier) body c.spool h.holds one cap room).1 in
      let same : (send_to raw (some (canonical payload n), n) c).client ≡ record c {
        spool = record c.spool {
          file = put (frame body) c.spool.file;
          cur_bytes = c.spool.cur_bytes + (rec_header + length body);
        };
        spooled = c.spooled + 1;
      } =
        ap (λ r. r.1) step in
      rw same (
        record {
          open_ = h.open_;
          spilling = h.spilling;
          holds =
              subst
                (λ bs. Holds bs (record c.spool {
                  file = put (frame body) c.spool.file;
                  cur_bytes = c.spool.cur_bytes + (rec_header + length body);
                }))
                (sym (bodies-append earlier (sent_as t n u l ∷ []))) held;
          cap = omega (arith, h.cap, l);
          room = omega (
            arith,
            h.room,
            l,
            length-append (put_uint32 (length body)) body,
            length-put_uint32 (length body),
          );
        },
        (refl, refl, refl),
      )

-- Behind what it held, the spool of `c'` holds a message for each one of `ms`, in their order and with
-- their payloads.
pub record Spilled {raw : RawWire} (earlier : List (Sent raw)) (limit : ℕ) (ms : List IpcMessage)
    (c c' : Client) : Type 0 where
  pub sent : List (Sent raw)
  pub held : IsSpilling (earlier ++ sent) 0 limit c'
  pub payloads : payloads_of (messages sent) ≡ payloads_of ms
  pub count : length sent ≡ length ms
  pub link : SameLink c c'

one_more :
    {raw : RawWire} (earlier : List (Sent raw)) (limit : ℕ) (s : Sent raw) (m : IpcMessage)
    (ms : List IpcMessage) (c d c' : Client)
    → s.message.payload ≡ m.payload
    → SameLink c d
    → Spilled (earlier ++ (s ∷ [])) limit ms d c'
    → Spilled earlier limit (m ∷ ms) c c'
one_more earlier limit s m ms c d c' e (wire, up, cap) f = record {
  sent = s ∷ f.sent;
  held = subst (λ ss. IsSpilling ss 0 limit c') (append_assoc earlier (s ∷ []) f.sent) f.held;
  payloads = λ i. e i ∷ f.payloads i;
  count = ap suc f.count;
  link = (f.link.0 ∙ wire, f.link.1 ∙ up, f.link.2 ∙ cap);
}

module _ {F J : Type 0} (json : Json J) (wire : Wire F)
    (marshal : CanonicalEvent F J → Option (List ℕ)) {raw : RawWire} (limit : ℕ)
    (small : limit ≤ max_frame_size) where
  pub forward_all-Spilled :
      (ms : List (Bool × IpcMessage)) (earlier : List (Sent raw)) (p : PublisherProcess)
      → All (IsWithin raw limit) ms
      → IsSpilling earlier (length ms) limit p.out.client
      → Spilled earlier limit
          (arrived ms)
          p.out.client
          (forward_all json wire marshal raw ms p).1.out.client
  unfolding forward_all forward new_message
  forward_all-Spilled [] earlier p l h = record {
    sent = [];
    held = rw (append-nil earlier) h;
    payloads = refl;
    count = refl;
    link = (refl, refl, refl);
  }
  forward_all-Spilled ((takes, m) ∷ ms) earlier p (l, ls) h =
      let n = inc_uint64 p.out.seq in
      let s = forward json wire marshal raw takes m p in
      let u : IsU64 n = omega arith in
      let sent = sent_as limit small l.carried n u (l.fits n u) in
      let (h', link) =
        spooled limit small earlier (length ms) l.carried n p.out.client u (l.fits n u) h in
      one_more earlier limit sent m (arrived ms) p.out.client s.1.out.client _ refl link
        (forward_all-Spilled ms (earlier ++ (sent ∷ [])) s.1 ls h')
