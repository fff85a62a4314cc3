-- ===== src/Adapter/Loop/Ending.antt =====
-- The end of the receive loop of binance.go and ib.go of pkg/adapter.
use spark_trade_mft_raw_data.Prelude.{
  Bool, true, false, ◌||◌, List, [], ◌∷◌, ◌++◌, if◌then◌else◌, if_cases, ◌≡◌, refl, sym, subst,
}
use spark_trade_mft_raw_data.Pipeline.{RawMessage}
use spark_trade_mft_raw_data.Adapter.{Adapter}
use spark_trade_mft_raw_data.Adapter.Loop.{
  Source, Event, turn, elsewhere, Feed, ended, after_read, loop_turn, feed_step, feed_run,
}

-- nothing is put out, and the adapter's context is cancelled
pub record Silent {C : Type 0} (r : List RawMessage × Feed C) : Type 0 where
  pub output : r.0 ≡ []
  pub cancelled : r.1.adapter.cancelled ≡ true

or-true : (b c : Bool) → c ≡ true → (b || c) ≡ true
or-true true c h = refl
or-true false c h = h

append-empty : {xs ys : List RawMessage} → xs ≡ [] → ys ≡ [] → (xs ++ ys) ≡ []
append-empty h k = λ i. h i ++ k i

-- the other goroutines do not take the cancellation back
abbrev pub KeepsCancelled : {C D X : Type 0} → Source C D X → Type 0
KeepsCancelled {C} {D} {X} src =
    (x : X) (a : Adapter C) → a.cancelled ≡ true → (src.other x a).cancelled ≡ true

module _ {C D X : Type 0} (src : Source C D X) (of_other : KeepsCancelled src) where
  feed_step-Silent :
      (e : Event D X) (f : Feed C) → f.adapter.cancelled ≡ true → Silent (feed_step src e f)
  unfolding feed_step loop_turn
  feed_step-Silent (turn t) f h =
      if_cases Silent f.going
        (λ _.
          subst
            (λ (b : Bool).
              Silent (
                if b
                then ([], ended src f.adapter)
                else after_read src t (src.safe_read f.adapter)))
            (sym (or-true t.ctx_done f.adapter.cancelled h))
            (record { output = refl; cancelled = h }))
        (λ _. record { output = refl; cancelled = h })
  feed_step-Silent (elsewhere x) f h = record { output = refl; cancelled = of_other x f.adapter h }

  -- Once the adapter's context is cancelled, the loop puts out no message any more, whatever
  -- happens, and the context stays cancelled, where the other goroutines do not take that back.
  pub feed_run-Silent :
      (es : List (Event D X)) (f : Feed C) → f.adapter.cancelled ≡ true → Silent (feed_run src es f)
  unfolding feed_run
  feed_run-Silent [] f h = record { output = refl; cancelled = h }
  feed_run-Silent (e ∷ es) f h =
      let s = feed_step-Silent e f h in
      let rest = feed_run-Silent es (feed_step src e f).1 s.cancelled in
      record { output = append-empty s.output rest.output; cancelled = rest.cancelled }
