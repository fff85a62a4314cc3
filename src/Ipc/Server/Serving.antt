-- ===== src/Ipc/Server/Serving.antt =====
-- A server's handler gets what was sent (pkg/ipc/server.go).
use spark_trade_mft_raw_data.Prelude.{
  ℕ, zero, suc, ◌≤◌, ◌≡◌, refl, sym, ◌∙◌, ap, Bool, true, false, ◌⊎◌, inl, inr, none, some, List,
  [], ◌∷◌, ◌++◌, append-nil, append_assoc, length, ◌==◌, if◌then◌else◌, arith,
}
use spark_trade_mft_raw_data.Prelude.Word.{inc_uint64}
use spark_trade_mft_raw_data.Ipc.{IpcError, err, ok}
use spark_trade_mft_raw_data.Ipc.Frame.{read_frame}
use spark_trade_mft_raw_data.Ipc.Frame.RoundTrip.{frame, read_frame-frame}
use spark_trade_mft_raw_data.Ipc.Spool.Records.{IsBody, file_of}
use spark_trade_mft_raw_data.Pipeline.{IpcMessage, RawWire, unmarshal_ipc}
use spark_trade_mft_raw_data.Ipc.Server.{
  Handled, replies, panics, ServerConn, after_handle, serve_message, serve_frame, serve_conn,
}

-- a frame's body that reads as a message
pub record Sent (wire : RawWire) : Type 0 where
  pub body : List ℕ
  pub message : IpcMessage
  pub is_body : IsBody body
  pub reads : unmarshal_ipc wire body ≡ some message

abbrev pub bodies : {wire : RawWire} → List (Sent wire) → List (List ℕ)
bodies [] = []
bodies (s ∷ ss) = s.body ∷ bodies ss

abbrev pub messages : {wire : RawWire} → List (Sent wire) → List IpcMessage
messages [] = []
messages (s ∷ ss) = s.message ∷ messages ss

-- A handler of the pipeline: it gives no reply, but it may panic.
abbrev pub IsSilent : (IpcMessage → Handled) → Type 0
IsSilent handler = (m : IpcMessage) → (handler m ≡ replies none) ⊎ (handler m ≡ panics)

module _ (wire : RawWire) (handler : IpcMessage → Handled) (silent : IsSilent handler) where
  silent_handle :
      (h : Handled) (c : ServerConn)
      → (h ≡ replies none) ⊎ (h ≡ panics)
      → ((after_handle wire handler h c).0 ≡ true)
        × ((after_handle wire handler h c).1.handled ≡ c.handled)
  unfolding after_handle
  silent_handle panics c e = (refl, refl)
  silent_handle (replies none) c e = (refl, refl)
  silent_handle (replies (some m)) c (inl e) = ground arith
  silent_handle (replies (some m)) c (inr e) = ground arith

  frame_served :
      (s : Sent wire) (c : ServerConn)
      → ((serve_frame wire handler s.body c).0 ≡ true)
        × ((serve_frame wire handler s.body c).1.handled ≡ c.handled ++ (s.message ∷ []))
  unfolding serve_frame serve_message
  frame_served s c =
      let l : (length s.body == 0) ≡ false = ground (arith, s.is_body.0) in
      let served : ServerConn = record c {
        handled = c.handled ++ (s.message ∷ []);
        recv = inc_uint64 c.recv;
      } in
      let step : serve_frame wire handler s.body c
          ≡ after_handle wire handler (handler s.message) served =
        ap
          (λ (b : Bool).
            if b then (true, c) else serve_message wire handler (unmarshal_ipc wire s.body) c)
          l
        ∙ ap (λ o. serve_message wire handler o c) s.reads in
      let h = silent_handle (handler s.message) served (silent s.message) in
      (ap (λ r. r.0) step ∙ h.0, ap (λ r. r.1.handled) step ∙ h.1)

  pub serve_conn-messages :
      (ss : List (Sent wire)) (fuel : ℕ) (rest : List ℕ) (e : IpcError) (c : ServerConn)
      → read_frame rest ≡ err e
      → length ss ≤ fuel
      → (serve_conn wire handler fuel (file_of (bodies ss) ++ rest) c).handled
        ≡ c.handled ++ messages ss
  unfolding serve_conn
  serve_conn-messages [] zero rest e c b l = sym (append-nil c.handled)
  serve_conn-messages [] (suc fuel) rest e c b l = rw (b, serve_conn) (sym (append-nil c.handled))
  serve_conn-messages (s ∷ ss) zero rest e c b l = elim l [ ]
  serve_conn-messages (s ∷ ss) (suc fuel) rest e c b l =
      let f = frame_served s c in
      let read : read_frame (frame s.body ++ (file_of (bodies ss) ++ rest))
          ≡ ok (s.body, file_of (bodies ss) ++ rest) =
        read_frame-frame s.body (file_of (bodies ss) ++ rest) s.is_body.1 in
      rw (append_assoc (frame s.body) (file_of (bodies ss)) rest, serve_conn, read, serve_conn, f.0)
        (serve_conn-messages ss fuel rest e (serve_frame wire handler s.body c).1 b (omega arith)
          ∙ ap (λ ms. ms ++ messages ss) f.1
          ∙ append_assoc c.handled (s.message ∷ []) (messages ss))
