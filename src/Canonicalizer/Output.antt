-- ===== src/Canonicalizer/Output.antt =====
-- Events from the pool of pkg/allocator, and their way from Process over the worker pool and the
-- output loop of cmd/canonicalizer to the codec.
use spark_trade_mft_raw_data.Prelude.{
  ℕ, zero, suc, String, ◌≡◌, refl, sym, ap, subst, false, Option, none, some, List, [], ◌∷◌, length,
  ◌==◌, All,
}
use spark_trade_mft_raw_data.Event.{CanonicalEvent}
use spark_trade_mft_raw_data.Proto.{Json, Wire, to_proto}
use spark_trade_mft_raw_data.Proto.RoundTrip.{trade, CryptoReads}
use spark_trade_mft_raw_data.Pipeline.{RawMessage, IpcMessage, encode_canonical, decode_canonical}
use spark_trade_mft_raw_data.Pipeline.RoundTrip.{ReadsBack, decode-encode_canonical}
use spark_trade_mft_raw_data.Axiom.{Prices}
use spark_trade_mft_raw_data.Mapper.{SymbolMapper}
use spark_trade_mft_raw_data.Workerpool.{
  ProcessedMessage, returned, Pool, PoolConfig, process_message,
}
use spark_trade_mft_raw_data.Canonicalizer.{
  Decoders, ParseError, Now, new_event, reset, acquire_event, release_event,
}
use spark_trade_mft_raw_data.Canonicalizer.Process.{parse_into, canonicalize, output_event}
use spark_trade_mft_raw_data.Canonicalizer.Payload.{Keeps, parse_into-Keeps}

-- What is done to the pool: an event is taken out, put back with whatever it then holds, or
-- dropped by the garbage collector.
pub data EventPoolOp (E : Type 0) : Type 0 where
  acquires : ℕ → EventPoolOp E
  releases : Option E → EventPoolOp E
  collects : ℕ → EventPoolOp E

module _ (fl : Prices) {J : Type 0} where
  open fl use {F}

  unfoldable pub event_pool_step :
      EventPoolOp (CanonicalEvent F J) → List (CanonicalEvent F J) → List (CanonicalEvent F J)
  unfolding acquire_event release_event
  event_pool_step (acquires k) es = (acquire_event fl k es).1
  event_pool_step (releases ev) es = release_event fl ev es
  event_pool_step (collects k) es = (acquire_event fl k es).1

  unfoldable pub event_pool_run :
      List (EventPoolOp (CanonicalEvent F J))
      → List (CanonicalEvent F J)
      → List (CanonicalEvent F J)
  unfolding event_pool_step
  event_pool_run [] es = es
  event_pool_run (op ∷ ops) es = event_pool_run ops (event_pool_step op es)

  abbrev AllNew : List (CanonicalEvent F J) → Type 0
  AllNew es = All (λ (e : CanonicalEvent F J). e ≡ new_event fl) es

  acquire-AllNew :
      (k : ℕ) (es : List (CanonicalEvent F J))
      → AllNew es
      → ((acquire_event fl k es).0 ≡ new_event fl) × AllNew (acquire_event fl k es).1
  unfolding acquire_event
  acquire-AllNew k [] h = (refl, tt)
  acquire-AllNew zero (e ∷ es) h = h
  acquire-AllNew (suc k) (e ∷ es) h = let r = acquire-AllNew k es h.1 in (r.0, (h.0, r.1))

  release-AllNew :
      (o : Option (CanonicalEvent F J)) (es : List (CanonicalEvent F J))
      → AllNew es
      → AllNew (release_event fl o es)
  unfolding release_event reset
  release-AllNew none es h = h
  release-AllNew (some e) es h = (refl, h)

  run-AllNew :
      (ops : List (EventPoolOp (CanonicalEvent F J))) (es : List (CanonicalEvent F J))
      → AllNew es
      → AllNew (event_pool_run ops es)
  unfolding event_pool_run event_pool_step
  run-AllNew [] es h = h
  run-AllNew (acquires k ∷ ops) es h =
      run-AllNew ops (acquire_event fl k es).1 (acquire-AllNew k es h).1
  run-AllNew (releases o ∷ ops) es h =
      run-AllNew ops (release_event fl o es) (release-AllNew o es h)
  run-AllNew (collects k ∷ ops) es h =
      run-AllNew ops (acquire_event fl k es).1 (acquire-AllNew k es h).1

  pub acquired-new :
      (ops : List (EventPoolOp (CanonicalEvent F J))) (k : ℕ)
      → (acquire_event fl k (event_pool_run ops [])).0 ≡ new_event fl
  acquired-new ops k = (acquire-AllNew k (event_pool_run ops []) (run-AllNew ops [] tt)).0

module _ (fl : Prices) {J : Type 0} (lower : String → String) (mapper : SymbolMapper)
    (decoders : Decoders (Prices.F fl)) where
  open fl use {F}

  -- Whatever events were taken from the pool and put back before, with whatever in them: Process and
  -- the output loop give on an event of the pool what they give on a new one, so that no field of
  -- an earlier message shows.
  pub canonicalize-pooled :
      (ops : List (EventPoolOp (CanonicalEvent F J))) (k : ℕ) (raw : RawMessage) (now : Now)
      (processed : ProcessedMessage RawMessage (CanonicalEvent F J) ParseError)
      → let ev = (acquire_event fl k (event_pool_run fl ops [])).0 in
        (canonicalize fl lower mapper decoders raw now ev
          ≡ canonicalize fl lower mapper decoders raw now (new_event fl))
        × (output_event fl lower mapper decoders now ev processed
            ≡ output_event fl lower mapper decoders now (new_event fl) processed)
  canonicalize-pooled ops k raw now processed = (
    ap (canonicalize fl lower mapper decoders raw now) (acquired-new fl ops k),
    ap (λ ev. output_event fl lower mapper decoders now ev processed) (acquired-new fl ops k),
  )

  -- the message that a worker delivers for an outcome of Process
  delivered :
      RawMessage
      → Option ParseError × CanonicalEvent F J
      → ProcessedMessage RawMessage (CanonicalEvent F J) ParseError
  delivered raw (none, ev) = record { raw = raw; canonical = some ev; error = none }
  delivered raw (some e, ev) = record { raw = raw; canonical = none; error = some e }

  delivered-Keeps :
      (raw : RawMessage) (r : Option ParseError × CanonicalEvent F J) (now : Now)
      (fresh : CanonicalEvent F J)
      → Keeps raw r.1
      → fresh.crypto_metadata ≡ none
      → Keeps raw (output_event fl lower mapper decoders now fresh (delivered raw r))
  unfolding delivered output_event
  delivered-Keeps raw (none, ev) now fresh h c = h
  delivered-Keeps raw (some e, ev) now fresh h c = record {
    payload = refl;
    source = refl;
    named = trade;
    no_crypto = c;
  }

  first_or :
      ProcessedMessage RawMessage (CanonicalEvent F J) ParseError
      → List (ProcessedMessage RawMessage (CanonicalEvent F J) ParseError)
      → ProcessedMessage RawMessage (CanonicalEvent F J) ParseError
  first_or d [] = d
  first_or d (r ∷ rs) = r

  process_message-delivered :
      (raw : RawMessage) (r : Option ParseError × CanonicalEvent F J) (others : List RawMessage)
      (config : PoolConfig) (p : Pool RawMessage (CanonicalEvent F J) ParseError)
      (processed : ProcessedMessage RawMessage (CanonicalEvent F J) ParseError)
      (before : List (ProcessedMessage RawMessage (CanonicalEvent F J) ParseError))
      → (process_message config
          (returned (record { raw = raw; canonical = some r.1; error = none }) r.0)
          raw
          others
          p).delivering
        ≡ processed ∷ before
      → delivered raw r ≡ processed
  unfolding process_message delivered first_or
  process_message-delivered raw (none, ev) others config p processed before e =
      ap (first_or processed) e
  process_message-delivered raw (some x, ev) others config p processed before e =
      ap (first_or processed) e

  -- A raw message of any source and payload, on an event from the pool: what a worker delivers for
  -- it, whether Process fails or not, becomes in the output loop an event with the payload byte for
  -- byte and the source of the message; and if EncodeCanonical turns that into a message with a
  -- payload that is not empty, DecodeCanonical at the publisher gives the event as it was, with a
  -- protobuf library that reads what it wrote.
  pub published-Keeps :
      (json : Json J) (wire : Wire F) (ops : List (EventPoolOp (CanonicalEvent F J))) (k l : ℕ)
      (raw : RawMessage) (now later : Now) (others : List RawMessage) (config : PoolConfig)
      (p : Pool RawMessage (CanonicalEvent F J) ParseError)
      (processed : ProcessedMessage RawMessage (CanonicalEvent F J) ParseError)
      (before : List (ProcessedMessage RawMessage (CanonicalEvent F J) ParseError)) (seq n : ℕ)
      (m : IpcMessage)
      → let es = event_pool_run fl ops [] in
        let ev = output_event fl lower mapper decoders later (acquire_event fl l es).0 processed in
        (process_message config
            (canonicalize fl lower mapper decoders raw now (acquire_event fl k es).0)
            raw
            others
            p).delivering
          ≡ processed ∷ before
        → encode_canonical json wire (some ev) seq ≡ (some m, n)
        → (length m.payload == 0) ≡ false
        → ReadsBack wire.marshal wire.unmarshal (to_proto json ev)
        → (ev.raw_payload ≡ raw.payload)
          × (ev.source ≡ raw.source)
          × (decode_canonical json wire (some m) ≡ some ev)
  unfolding canonicalize
  published-Keeps json wire ops k l raw now later others config p processed before seq n m e1 e2 h
        reads =
      let es = event_pool_run fl ops [] in
      let fresh = (acquire_event fl l es).0 in
      let r = parse_into fl lower mapper decoders raw now (acquire_event fl k es).0 in
      let d = process_message-delivered raw r others config p processed before e1 in
      let kept : Keeps raw (output_event fl lower mapper decoders later fresh processed) =
        subst (λ q. Keeps raw (output_event fl lower mapper decoders later fresh q)) d
          (delivered-Keeps raw r later fresh
            (parse_into-Keeps fl lower mapper decoders raw now (acquire_event fl k es).0
              (ap (λ ev. ev.crypto_metadata) (acquired-new fl ops k)))
            (ap (λ ev. ev.crypto_metadata) (acquired-new fl ops l))) in
      (
        kept.payload,
        kept.source,
        decode-encode_canonical json wire
            (output_event fl lower mapper decoders later fresh processed) seq n m reads kept.named
            (subst (CryptoReads json) (sym kept.no_crypto) tt) e2 h,
      )
