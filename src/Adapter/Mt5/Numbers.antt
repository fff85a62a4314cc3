-- ===== src/Adapter/Mt5/Numbers.antt =====
-- The numbers of the messages that pkg/adapter/mt5_zmq.go puts out.
use spark_trade_mft_raw_data.Prelude.{
  ℕ, ◌+◌, ◌%◌, Bool, true, false, ◌&&◌, ◌||◌, Option, none, some, List, [], ◌∷◌, ◌++◌, if_cases,
  length, length-append, arith, ◌≡◌, refl, sym, subst,
}
use spark_trade_mft_raw_data.Prelude.Int.{ℤ, pos, ltz}
use spark_trade_mft_raw_data.Prelude.Word.{inc_uint64, IsU64}
use spark_trade_mft_raw_data.Pipeline.{RawMessage}
use spark_trade_mft_raw_data.Adapter.{Failure, Adapter, add_error, inc_int32}
use spark_trade_mft_raw_data.Adapter.Mt5.{
  Received, again, failed, received, SocketDial, no_socket, no_connect, no_subscription, subscribed,
  Mt5, connect, get_backoff, Reconnected, sleep_and_connect, reconnect, stop_mt5, recv_from,
  safe_recv, Round, Outcome, after_reconnect, send_message, after_recv, receive_round, Mt5Event,
  round, stops, Mt5Run, mt5_step, mt5_run,
}

-- The messages are valid and numbered from `n` on: the first has the number after `n`.
unfoldable pub IsNumbered : (List ℕ → Bool) → ℕ → List RawMessage → Type 0
IsNumbered valid n [] = Unit
IsNumbered valid n (m ∷ ms) =
    (m.sequence_num ≡ inc_uint64 n)
    × ((valid m.payload ≡ true) × IsNumbered valid (inc_uint64 n) ms)

IsNumbered-append :
    (valid : List ℕ → Bool) (n : ℕ) (xs ys : List RawMessage)
    → IsU64 n
    → IsNumbered valid n xs
    → IsNumbered valid ((n + length xs) % 0x1_0000_0000_0000_0000) ys
    → IsNumbered valid n (xs ++ ys)
unfolding IsNumbered
IsNumbered-append valid n [] ys low h k =
    subst (λ m. IsNumbered valid m ys)
      {x = (n + length {A = RawMessage} []) % 0x1_0000_0000_0000_0000} (omega arith) k
IsNumbered-append valid n (x ∷ xs) ys low (e, (v, h)) k = (
  e,
  (
    v,
    IsNumbered-append valid (inc_uint64 n) xs ys (omega arith) h (
        subst (λ m. IsNumbered valid m ys) {x = (n + length (x ∷ xs)) % 0x1_0000_0000_0000_0000}
          (omega arith) k),
  ),
)

-- the counter goes with the messages
pub record Numbered (valid : List ℕ → Bool) (n n' : ℕ) (ms : List RawMessage) : Type 0 where
  pub numbers : IsNumbered valid n ms
  pub count : n' ≡ (n + length ms) % 0x1_0000_0000_0000_0000

none-Numbered : (valid : List ℕ → Bool) (n n' : ℕ) → IsU64 n → n' ≡ n → Numbered valid n n' []
unfolding IsNumbered
none-Numbered valid n n' low e = record { numbers = tt; count = omega arith }

abbrev pub Socket : Type 0
Socket = List Received

abbrev HasCount : ℕ → Adapter Socket → Type 0
HasCount n a = a.messages_recv ≡ n

-- A property that the socket does not touch
abbrev pub IsAside : (Adapter Socket → Type 0) → Type 0
IsAside P =
    (c : Option Socket) (b : Bool) (a : Adapter Socket)
    → P a
    → P (record a { conn = c; connected = b })

module _ (P : Adapter Socket → Type 0) (aside : IsAside P) where
  pub connect-IsAside : (d : SocketDial) (a : Adapter Socket) → P a → P (connect d a).1
  unfolding connect
  connect-IsAside no_socket a h =
      if_cases (λ (r : Option Failure × Adapter Socket). P r.1) a.connected (λ _. h) (λ _. h)
  connect-IsAside no_connect a h =
      if_cases (λ (r : Option Failure × Adapter Socket). P r.1) a.connected (λ _. h) (λ _. h)
  connect-IsAside no_subscription a h =
      if_cases (λ (r : Option Failure × Adapter Socket). P r.1) a.connected (λ _. h) (λ _. h)
  connect-IsAside (subscribed rs) a h =
      if_cases (λ (r : Option Failure × Adapter Socket). P r.1) a.connected (λ _. h)
        (λ _. aside (some rs) true a h)

  pub recv_from-IsAside : (c : Option Socket) (a : Adapter Socket) → P a → P (recv_from c a).1
  unfolding recv_from
  recv_from-IsAside none a h = h
  recv_from-IsAside (some []) a h = h
  recv_from-IsAside (some (r ∷ rs)) a h = aside (some rs) a.connected a h

sleep_and_connect-HasCount :
    (n : ℕ) (s : Option ℤ) (d : SocketDial) (a : Adapter Socket)
    → HasCount n a
    → HasCount n (sleep_and_connect s d a).adapter
unfolding sleep_and_connect add_error
sleep_and_connect-HasCount n none d a h = h
sleep_and_connect-HasCount n (some s) d a h = connect-IsAside (HasCount n) (λ _ _ _ k. k) d a h

reconnect-HasCount :
    (n : ℕ) (d : SocketDial) (a : Adapter Socket)
    → HasCount n a
    → HasCount n (reconnect d a).adapter
unfolding reconnect
reconnect-HasCount n d a h =
    let count = inc_int32 a.reconnect_count in
    if_cases (λ (r : Reconnected). HasCount n r.adapter)
      (ltz (pos 0) a.reconnect_attempts && ltz a.reconnect_attempts count) (λ _. h)
      (λ _.
        sleep_and_connect-HasCount n (get_backoff a.backoff_seconds count) d
          (record a { reconnect_count = count; conn = none; connected = false }) h)

abbrev CountsIn : (List ℕ → Bool) → ℕ → Outcome → Type 0
CountsIn valid n o = Numbered valid n o.adapter.messages_recv o.output

after_reconnect-HasCount :
    (n : ℕ) (r : Reconnected) → HasCount n r.adapter → HasCount n (after_reconnect r).adapter
unfolding after_reconnect add_error
after_reconnect-HasCount n r h = go r.error
  where
    go :
        (e : Option Failure)
        → HasCount n (elim e [ none ↦ r.adapter | some f ↦ add_error f r.adapter ])
    go none = h
    go (some f) = h

module _ (valid : List ℕ → Bool) where
  send_message-Numbered :
      (t : Round) (p : List ℕ) (a : Adapter Socket)
      → valid p ≡ true
      → IsU64 a.messages_recv
      → CountsIn valid a.messages_recv (send_message t p a)
  unfolding send_message add_error IsNumbered
  send_message-Numbered t p a v low =
      if_cases (CountsIn valid a.messages_recv) t.takes
        (λ _. record { numbers = (refl, (v, tt)); count = refl })
        (λ _. none-Numbered valid a.messages_recv _ low (omega arith))

  after_recv-Numbered :
      (n : ℕ) (t : Round) (r : Received × Adapter Socket)
      → IsU64 n
      → HasCount n r.1
      → CountsIn valid n (after_recv valid t r)
  unfolding after_recv add_error
  after_recv-Numbered n t (again, a) low h = none-Numbered valid n _ low h
  after_recv-Numbered n t (failed, a) low h = none-Numbered valid n _ low (
      after_reconnect-HasCount n (reconnect t.dial (record a { connected = false }))
        (reconnect-HasCount n t.dial (record a { connected = false }) h))
  after_recv-Numbered n t (received p, a) low h =
      if_cases (CountsIn valid n) (valid p)
        (λ v.
          subst (λ m. CountsIn valid m (send_message t p a)) h
            (send_message-Numbered t p a v (subst IsU64 (sym h) low)))
        (λ _. none-Numbered valid n _ low h)

  receive_round-Numbered :
      (t : Round) (m : Mt5)
      → IsU64 m.adapter.messages_recv
      → CountsIn valid m.adapter.messages_recv (receive_round valid t m)
  unfolding receive_round safe_recv
  receive_round-Numbered t m low =
      let n = m.adapter.messages_recv in
      if_cases (CountsIn valid n) (t.ctx_done || m.stopping) (λ _. none-Numbered valid n n low refl)
        (λ _.
          after_recv-Numbered n t (safe_recv m.adapter) low
            (recv_from-IsAside (HasCount n) (λ _ _ _ k. k) m.adapter.conn m.adapter refl))

  mt5_step-Numbered :
      (e : Mt5Event) (going : Bool) (m : Mt5)
      → IsU64 m.adapter.messages_recv
      → let s = mt5_step valid e going m in
        Numbered valid m.adapter.messages_recv s.mt5.adapter.messages_recv s.output
  unfolding mt5_step stop_mt5 add_error
  mt5_step-Numbered (round t) going m low =
      let n = m.adapter.messages_recv in
      if_cases (λ (s : Mt5Run). Numbered valid n s.mt5.adapter.messages_recv s.output) going
        (λ _. receive_round-Numbered t m low) (λ _. none-Numbered valid n n low refl)
  mt5_step-Numbered stops going m low =
      let n = m.adapter.messages_recv in
      if_cases (λ (x : Mt5). Numbered valid n x.adapter.messages_recv []) m.stopping
        (λ _. none-Numbered valid n n low refl) (λ _. none-Numbered valid n n low refl)

  -- In a run of the receive loop with calls of Stop, from a counter `n` below 2^64, each message
  -- that is put out is valid JSON, the first has the number n + 1 and each other one the number
  -- after the one before it, modulo 2^64, so that a message that the output has not taken leaves no
  -- gap; and the counter is at the last number.
  pub mt5_run-Numbered :
      (es : List Mt5Event) (going : Bool) (m : Mt5)
      → IsU64 m.adapter.messages_recv
      → let r = mt5_run valid es going m in
        Numbered valid m.adapter.messages_recv r.mt5.adapter.messages_recv r.output
  unfolding mt5_run
  mt5_run-Numbered [] going m low = none-Numbered valid m.adapter.messages_recv _ low refl
  mt5_run-Numbered (e ∷ es) going m low =
      let n = m.adapter.messages_recv in
      let s = mt5_step valid e going m in
      let rest = mt5_run valid es s.going s.mt5 in
      let h = mt5_step-Numbered e going m low in
      let k = mt5_run-Numbered es s.going s.mt5 (subst IsU64 (sym h.count) (omega arith)) in
      record {
        numbers =
            IsNumbered-append valid n s.output rest.output low h.numbers
              (subst (λ i. IsNumbered valid i rest.output) h.count k.numbers);
        count = omega (arith, k.count, h.count, length-append s.output rest.output);
      }
