-- ===== src/Adapter/Mt5/Reconnects.antt =====
-- How often pkg/adapter/mt5_zmq.go reconnects.
use spark_trade_mft_raw_data.Prelude.{
  ℕ, suc, ◌+◌, ◌-◌, ◌≤◌, ◌<◌, Bool, false, ◌&&◌, ◌||◌, Option, none, some, List, [], ◌∷◌, ◌==◌,
  if_cases, length, length-append, arith, ◌≡◌, refl, sym, ap, ◌∙◌,
}
use spark_trade_mft_raw_data.Prelude.Int.{ℤ, pos, ltz}
use spark_trade_mft_raw_data.Adapter.{Failure, Adapter, add_error, inc_int32}
use spark_trade_mft_raw_data.Adapter.Mt5.{
  Received, again, failed, received, SocketDial, Mt5, get_backoff, Reconnected, sleep_and_connect,
  reconnect, stop_mt5, safe_recv, Round, Outcome, after_reconnect, send_message, after_recv,
  receive_round, Mt5Event, round, stops, Mt5Run, mt5_step, mt5_run,
}
use spark_trade_mft_raw_data.Adapter.Mt5.Numbers.{
  Socket, IsAside, connect-IsAside, recv_from-IsAside,
}

-- `c` reconnects have been counted, of `m` that are allowed
pub record IsAt (m c : ℕ) (a : Adapter Socket) : Type 0 where
  pub count : a.reconnect_count ≡ pos c
  pub attempts : a.reconnect_attempts ≡ pos m

-- after `k` steps from count `c`: what is slept comes off what is left
pub record Within (m c k : ℕ) (waits : List ℤ) (a : Adapter Socket) : Type 0 where
  pub count : ℕ
  pub at : IsAt m count a
  pub low : count ≤ c + k
  pub spent : length waits + (m - count) ≤ m - c

stay : (m c : ℕ) (a : Adapter Socket) → IsAt m c a → Within m c 1 [] a
stay m c a h = record { count = c; at = h; low = omega arith; spent = omega arith }

IsAt-IsAside : (m c : ℕ) → IsAside (IsAt m c)
IsAt-IsAside m c _ _ a h = record { count = h.count; attempts = h.attempts }

inc_int32-pos : (c : ℕ) → c < 0x7fff_ffff → inc_int32 (pos c) ≡ pos (c + 1)
unfolding inc_int32
inc_int32-pos c h = rw (neq)
  where
    neq : (c == 0x7fff_ffff) ≡ false
    neq = ground arith

sleep_and_connect-Within :
    (m c : ℕ) (s : Option ℤ) (d : SocketDial) (a : Adapter Socket)
    → suc c ≤ m
    → IsAt m (c + 1) a
    → let r = sleep_and_connect s d a in Within m c 1 r.waits r.adapter
unfolding sleep_and_connect add_error
sleep_and_connect-Within m c none d a le h = record {
  count = c + 1;
  at = record { count = h.count; attempts = h.attempts };
  low = omega arith;
  spent = omega arith;
}
sleep_and_connect-Within m c (some s) d a le h = record {
  count = c + 1;
  at = connect-IsAside (IsAt m (c + 1)) (IsAt-IsAside m (c + 1)) d a h;
  low = omega arith;
  spent = omega arith;
}

abbrev exhausted : ℤ → ℤ → Bool
exhausted m count = ltz (pos 0) m && ltz m count

exhausted-pos : (m c : ℕ) → 0 < m → exhausted (pos m) (pos (c + 1)) ≡ false → suc c ≤ m
exhausted-pos m c h e = ground arith

reconnect-Within :
    (m c : ℕ) (d : SocketDial) (a : Adapter Socket)
    → 0 < m
    → c < 0x7fff_ffff
    → IsAt m c a
    → let r = reconnect d a in Within m c 1 r.waits r.adapter
unfolding reconnect
reconnect-Within m c d a positive small h =
    let n = inc_int32 a.reconnect_count in
    let next : n ≡ pos (c + 1) = ap inc_int32 h.count ∙ inc_int32-pos c small in
    if_cases (λ (r : Reconnected). Within m c 1 r.waits r.adapter)
      (exhausted a.reconnect_attempts n)
      (λ _. record {
        count = c + 1;
        at = record { count = next; attempts = h.attempts };
        low = omega arith;
        spent = omega arith;
      })
      (λ e.
        sleep_and_connect-Within m c (get_backoff a.backoff_seconds n) d
          (record a { reconnect_count = n; conn = none; connected = false })
          (exhausted-pos m c positive (sym (λ i. exhausted (h.attempts i) (next i)) ∙ e))
          (record { count = next; attempts = h.attempts }))

after_reconnect-Within :
    (m c : ℕ) (r : Reconnected)
    → Within m c 1 r.waits r.adapter
    → let o = after_reconnect r in Within m c 1 o.waits o.adapter
unfolding after_reconnect add_error
after_reconnect-Within m c r h = go r.error
  where
    go :
        (e : Option Failure)
        → Within m c 1 r.waits (elim e [ none ↦ r.adapter | some f ↦ add_error f r.adapter ])
    go none = h
    go (some f) = record {
      count = h.count;
      at = record { count = h.at.count; attempts = h.at.attempts };
      low = h.low;
      spent = h.spent;
    }

module _ (valid : List ℕ → Bool) (m : ℕ) (positive : 0 < m) where
  abbrev Bounded : ℕ → Outcome → Type 0
  Bounded c o = Within m c 1 o.waits o.adapter

  calm_step :
      (c : ℕ) (a b : Adapter Socket)
      → IsAt m c a
      → b.reconnect_count ≡ a.reconnect_count
      → b.reconnect_attempts ≡ a.reconnect_attempts
      → Within m c 1 [] b
  calm_step c a b h e f = stay m c b (record { count = e ∙ h.count; attempts = f ∙ h.attempts })

  after_recv-Within :
      (c : ℕ) (t : Round) (r : Received × Adapter Socket)
      → c < 0x7fff_ffff
      → IsAt m c r.1
      → Bounded c (after_recv valid t r)
  unfolding after_recv send_message add_error
  after_recv-Within c t (again, a) small h = stay m c a h
  after_recv-Within c t (failed, a) small h =
      after_reconnect-Within m c (reconnect t.dial (record a { connected = false })) (
        reconnect-Within m c t.dial (record a { connected = false }) positive small
          (record { count = h.count; attempts = h.attempts }))
  after_recv-Within c t (received p, a) small h =
      if_cases (Bounded c) (valid p)
        (λ _.
          if_cases (Bounded c) t.takes (λ _. calm_step c a _ h refl refl)
            (λ _. calm_step c a _ h refl refl))
        (λ _. calm_step c a _ h refl refl)

  mt5_step-Within :
      (c : ℕ) (e : Mt5Event) (going : Bool) (x : Mt5)
      → c < 0x7fff_ffff
      → IsAt m c x.adapter
      → let s = mt5_step valid e going x in Within m c 1 s.waits s.mt5.adapter
  unfolding mt5_step receive_round safe_recv stop_mt5 add_error
  mt5_step-Within c (round t) going x small h =
      if_cases (λ (s : Mt5Run). Within m c 1 s.waits s.mt5.adapter) going
        (λ _.
          if_cases (Bounded c) (t.ctx_done || x.stopping) (λ _. stay m c x.adapter h)
            (λ _.
              after_recv-Within c t (safe_recv x.adapter) small
                (recv_from-IsAside (IsAt m c) (IsAt-IsAside m c) x.adapter.conn x.adapter h)))
        (λ _. stay m c x.adapter h)
  mt5_step-Within c stops going x small h =
      if_cases (λ (y : Mt5). Within m c 1 [] y.adapter) x.stopping
        (λ _. calm_step c x.adapter _ h refl refl) (λ _. calm_step c x.adapter _ h refl refl)

  -- With a limit of `m` > 0 reconnects, of which `c` have been counted, and fewer steps than make
  -- the count overflow, MT5 sleeps for at most m - c reconnects in the whole run, however many of
  -- them succeed: each one counts for good.
  pub mt5_run-Within :
      (es : List Mt5Event) (c : ℕ) (going : Bool) (x : Mt5)
      → c + length es < 0x7fff_ffff
      → IsAt m c x.adapter
      → let r = mt5_run valid es going x in Within m c (length es) r.waits r.mt5.adapter
  unfolding mt5_run
  mt5_run-Within [] c going x small h = record {
    count = c;
    at = h;
    low = omega arith;
    spent = omega arith;
  }
  mt5_run-Within (e ∷ es) c going x small h =
      let s = mt5_step valid e going x in
      let k = mt5_step-Within c e going x (omega arith) h in
      let low = k.low in
      let rest = mt5_run-Within es k.count s.going s.mt5 (omega arith) k.at in
      record {
        count = rest.count;
        at = rest.at;
        low = omega (arith, rest.low, k.low);
        spent = omega (
          arith,
          rest.spent,
          k.spent,
          length-append s.waits (mt5_run valid es s.going s.mt5).waits,
        );
      }
