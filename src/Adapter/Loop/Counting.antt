-- ===== src/Adapter/Loop/Counting.antt =====
-- The counter and the end of the receive loop of binance.go and ib.go of pkg/adapter.
use spark_trade_mft_raw_data.Prelude.{
  ℕ, ◌+◌, ◌%◌, String, ◌||◌, List, [], ◌∷◌, if_cases, length, length-append, All, All-append, arith,
  ◌≡◌, refl, sym, subst,
}
use spark_trade_mft_raw_data.Prelude.Word.{IsU64}
use spark_trade_mft_raw_data.Pipeline.{RawMessage}
use spark_trade_mft_raw_data.Adapter.{Adapter, add_error}
use spark_trade_mft_raw_data.Adapter.Loop.{
  ReadResult, fails, skips, reads, Source, Turn, Event, turn, elsewhere, Feed, ended, deliver,
  after_read, loop_turn, feed_step, feed_run,
}
use spark_trade_mft_raw_data.Adapter.Loop.Laws.{IsKept, after_error-IsKept}

abbrev pub HasReceived : {C : Type 0} → ℕ → Adapter C → Type 0
HasReceived n a = a.messages_recv ≡ n

-- connecting, reading and the other goroutines leave the counter alone
pub record LeavesCount {C D X : Type 0} (src : Source C D X) : Type 0 where
  pub kept : (n : ℕ) → IsKept src (HasReceived n)
  pub of_safe_read : (a : Adapter C) → (src.safe_read a).1.messages_recv ≡ a.messages_recv
  pub of_other : (x : X) (a : Adapter C) → (src.other x a).messages_recv ≡ a.messages_recv

-- The messages have the adapter's name, and the counter has gone from `n` to `n` and their number.
pub record Counted {C : Type 0} (name : String) (n : ℕ) (r : List RawMessage × Feed C)
    : Type 0 where
  pub count : r.1.adapter.messages_recv ≡ (n + length r.0) % 0x1_0000_0000_0000_0000
  pub named : All (λ (m : RawMessage). m.source ≡ name) r.0

module _ {C D X : Type 0} (src : Source C D X) (leaves : LeavesCount src) where
  none-Counted :
      (n : ℕ) (f : Feed C) → IsU64 n → f.adapter.messages_recv ≡ n → Counted src.name n ([], f)
  none-Counted n f h e = record { count = omega arith; named = tt }

  deliver-Counted :
      (t : Turn D) (p : List ℕ) (a : Adapter C)
      → IsU64 a.messages_recv
      → Counted src.name a.messages_recv (deliver src t p a)
  unfolding deliver add_error
  deliver-Counted t p a h =
      if_cases (Counted src.name a.messages_recv) t.takes
        (λ _. record { count = refl; named = (refl, tt) })
        (λ _. record { count = omega arith; named = tt })

  after_read-Counted :
      (t : Turn D) (r : ReadResult × Adapter C)
      → IsU64 r.1.messages_recv
      → Counted src.name r.1.messages_recv (after_read src t r)
  unfolding after_read
  after_read-Counted t (fails f, a) h =
      let k = leaves.kept a.messages_recv in
      none-Counted a.messages_recv _ h (
        after_error-IsKept src (HasReceived a.messages_recv) k t.attempts (add_error f a)
          (k.of_error f a refl))
  after_read-Counted t (skips, a) h = none-Counted a.messages_recv _ h refl
  after_read-Counted t (reads p, a) h = deliver-Counted t p a h

  feed_step-Counted :
      (e : Event D X) (f : Feed C)
      → IsU64 f.adapter.messages_recv
      → Counted src.name f.adapter.messages_recv (feed_step src e f)
  unfolding feed_step loop_turn
  feed_step-Counted (turn t) f h =
      let n = f.adapter.messages_recv in
      let same = leaves.of_safe_read f.adapter in
      if_cases (Counted src.name n) f.going
        (λ _.
          if_cases (Counted src.name n) (t.ctx_done || f.adapter.cancelled)
            (λ _. none-Counted n (ended src f.adapter) h refl)
            (λ _.
              subst (λ m. Counted src.name m (after_read src t (src.safe_read f.adapter))) same
                (after_read-Counted t (src.safe_read f.adapter) (subst IsU64 (sym same) h))))
        (λ _. none-Counted n f h refl)
  feed_step-Counted (elsewhere x) f h =
      none-Counted f.adapter.messages_recv _ h (leaves.of_other x f.adapter)

  -- A run of the loop, with what the other goroutines do meanwhile, has counted what it has put
  -- out: the counter, below 2^64 before, is raised by the number of messages, modulo 2^64, so a
  -- message that the output has not taken is not counted; and every message has the adapter's name.
  -- Connecting, reading and the other goroutines leave the counter alone.
  pub feed_run-Counted :
      (es : List (Event D X)) (f : Feed C)
      → IsU64 f.adapter.messages_recv
      → Counted src.name f.adapter.messages_recv (feed_run src es f)
  unfolding feed_run
  feed_run-Counted [] f h = none-Counted f.adapter.messages_recv f h refl
  feed_run-Counted (e ∷ es) f h =
      let s = feed_step src e f in
      let c = feed_step-Counted e f h in
      let low = subst IsU64 (sym c.count) (omega arith) in
      let rest = feed_run-Counted es s.1 low in
      record {
        count = omega (arith, rest.count, c.count, length-append s.0 (feed_run src es s.1).0);
        named =
            All-append (λ (m : RawMessage). m.source ≡ src.name) s.0 (feed_run src es s.1).0 c.named
              rest.named;
      }
