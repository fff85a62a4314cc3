-- ===== src/Supervisor/Retries.antt =====
-- How often a child is launched, and how long the monitor waits (pkg/process/process.go).
use spark_trade_mft_raw_data.Prelude.{
  ℕ, ◌+◌, ◌≤◌, ◌<◌, ◌≡◌, ◌⊎◌, inl, inr, refl, ap, sym, subst, ◌∙◌, Bool, true, false, ◌&&◌, ◌||◌,
  not, ltb, List, [], ◌∷◌, ◌++◌, if_cases, if◌then◌else◌, arith,
}
use spark_trade_mft_raw_data.Prelude.Int.{ℤ}
use spark_trade_mft_raw_data.Workerpool.{inc_int32}
use spark_trade_mft_raw_data.Supervisor.{
  Process, new_process, start_process, backoff_delay, is_past, crashed, wake, ChildRun,
  start_failed, exited, after_exit, after_run, monitor_step, stop_process, ProcessOp, starts, stops,
  runs, wakes, process_step,
}
use spark_trade_mft_raw_data.Supervisor.Schedule.{schedule, planned}
use spark_trade_mft_raw_data.Supervisor.Waits.{IsCutShort, IsWaited, woken_waits}

abbrev pub one_if : Bool → ℕ
one_if true = 1
one_if false = 0

-- The monitor of a process with `m` retries: while it runs, every launch but the current one was
-- followed by a wait of the schedule.
pub record IsBounded (m : ℕ) (backoff : List ℕ) (p : Process) : Type 0 where
  pub policy : (p.max_retries ≡ m) × (p.backoff ≡ backoff)
  pub active :
      p.finished ≡ false
      → (p.launches ≡ p.attempt + one_if p.waiting) × (p.restarts ≡ p.attempt + one_if p.waiting)
  pub launched : p.launches ≤ p.attempt + 1
  pub retries : p.attempt + one_if p.waiting ≤ m
  pub waited : IsWaited backoff p
  -- no wait has been cut short yet
  pub free :
      (p.cancelled ≡ false) ⊎ (p.waiting ≡ true) → p.waits ≡ schedule (planned backoff) p.attempt

not_past :
    (max n : ℕ)
    → 0 < max
    → n ≤ max
    → max < 0x7fff_ffff
    → is_past max (inc_int32 n) ≡ false
    → n + 1 ≤ max
not_past max n h k l e = ground arith

module _ (m : ℕ) (backoff : List ℕ) (some_retries : 0 < m) (few : m < 0x7fff_ffff) where
  crashed-IsBounded :
      (p : Process)
      → (p.max_retries ≡ m) × (p.backoff ≡ backoff)
      → p.waiting ≡ false
      → p.launches ≡ p.attempt + 1
      → p.restarts ≡ p.attempt
      → p.attempt ≤ m
      → p.waits ≡ schedule (planned backoff) p.attempt
      → IsBounded m backoff (crashed p)
  unfolding crashed
  crashed-IsBounded p c q l r a w =
      if_cases (IsBounded m backoff) (is_past p.max_retries _)
        (λ h. record {
          policy = c;
          active = λ e. ground arith;
          launched = omega (arith, l);
          retries = omega (arith, ap one_if q, a);
          waited = inl w;
          free = λ _. w;
        })
        (λ h. record {
          policy = c;
          active = λ e. (omega (arith, l), omega (arith, r, a, few));
          launched = omega (arith, l);
          retries = omega (
            arith,
            r,
            not_past p.max_retries p.restarts (omega (arith, c.0)) (omega (arith, c.0, r, a))
                (omega (arith, c.0, few)) h,
            c.0,
          );
          waited = inl w;
          free = λ _. w;
        })

  after_exit-IsBounded :
      (code : ℤ) (p : Process)
      → (p.max_retries ≡ m) × (p.backoff ≡ backoff)
      → p.waiting ≡ false
      → p.launches ≡ p.attempt
      → p.restarts ≡ p.attempt
      → p.attempt ≤ m
      → p.waits ≡ schedule (planned backoff) p.attempt
      → IsBounded m backoff (after_exit code p)
  unfolding after_exit
  after_exit-IsBounded code p c q l r a w =
      if_cases (IsBounded m backoff) p.stopped
        (λ h. record {
          policy = c;
          active = λ e. ground arith;
          launched = omega (arith, l);
          retries = omega (arith, ap one_if q, a);
          waited = inl w;
          free = λ _. w;
        })
        (λ h.
          crashed-IsBounded
            (record p { launches = p.launches + 1; running = false; exit_code = code }) c q
            (omega (arith, l)) r a w)

  -- Stop leaves all but its flags
  stop_exit :
      (code : ℤ) (p : Process)
      → (p.max_retries ≡ m) × (p.backoff ≡ backoff)
      → p.waiting ≡ false
      → p.launches ≡ p.attempt
      → p.restarts ≡ p.attempt
      → p.attempt ≤ m
      → p.waits ≡ schedule (planned backoff) p.attempt
      → IsBounded m backoff (after_exit code (stop_process p).1)
  unfolding stop_process
  stop_exit code p c q l r a w =
      if_cases (λ (s : Bool × Process). IsBounded m backoff (after_exit code s.1)) p.stopped
        (λ _. after_exit-IsBounded code p c q l r a w)
        (λ _.
          if_cases (λ (s : Bool × Process). IsBounded m backoff (after_exit code s.1)) p.started
            (λ _. after_exit-IsBounded code _ c q l r a w)
            (λ _. after_exit-IsBounded code _ c q l r a w))

  after_run-IsBounded :
      (run : ChildRun) (p : Process)
      → p.finished ≡ false
      → p.waiting ≡ false
      → p.cancelled ≡ false
      → IsBounded m backoff p
      → IsBounded m backoff (after_run run p)
  unfolding after_run
  after_run-IsBounded run p f q x d =
      let (l, r) = d.active f in
      let none_ = ap one_if q in
      let l0 : p.launches ≡ p.attempt = omega (arith, l, none_) in
      let r0 : p.restarts ≡ p.attempt = omega (arith, r, none_) in
      let a0 : p.attempt ≤ m = omega (arith, d.retries, none_) in
      let w0 = d.free (inl x) in
      elim run as (λ k. IsBounded m backoff (after_run k p)) [
        | start_failed ↦
            crashed-IsBounded (record p { launches = p.launches + 1 }) d.policy q
              (omega (arith, l0)) r0 a0 w0
        | exited code true ↦ stop_exit code p d.policy q l0 r0 a0 w0
        | exited code false ↦ after_exit-IsBounded code p d.policy q l0 r0 a0 w0
      ]

  -- Stop, while the monitor waits or not
  stop-IsBounded : (p : Process) → IsBounded m backoff p → IsBounded m backoff (stop_process p).1
  unfolding stop_process
  stop-IsBounded p d =
      if_cases (λ (s : Bool × Process). IsBounded m backoff s.1) p.stopped (λ _. d)
        (λ _.
          if_cases (λ (s : Bool × Process). IsBounded m backoff s.1) p.started
            (λ _. record {
              policy = d.policy;
              active = d.active;
              launched = d.launched;
              retries = d.retries;
              waited = elim d.waited [ inl w ↦ inl w | inr (_, w) ↦ inr (refl, w) ];
              free = λ f. elim f [ inl e ↦ absurd (ground arith) | inr q ↦ d.free (inr q) ];
            })
            (λ _. record {
              policy = d.policy;
              active = d.active;
              launched = d.launched;
              retries = d.retries;
              waited = d.waited;
              free = d.free;
            }))

  wake-IsBounded :
      (elapsed : ℕ) (p : Process) → IsBounded m backoff p → IsBounded m backoff (wake elapsed p)
  unfolding wake
  wake-IsBounded elapsed p d =
      if_cases (IsBounded m backoff) p.waiting
        (λ q.
          let one = ap one_if q in
          let new = woken_waits backoff p.cancelled elapsed p.waits p.attempt (d.free (inr q)) in
          let plan =
            ap
              (λ b.
                p.waits
                ++ ((if p.cancelled && ltb elapsed (backoff_delay b p.attempt)
                      then elapsed
                      else backoff_delay b p.attempt)
                    ∷ []))
              d.policy.1 in
          record {
            policy = d.policy;
            active = λ f. (omega (arith, (d.active f).0, one), omega (arith, (d.active f).1, one));
            launched = omega (arith, d.launched);
            retries = omega (arith, d.retries, one);
            waited =
                subst
                  (λ ws.
                    (ws ≡ schedule (planned backoff) (p.attempt + 1))
                    ⊎ ((p.cancelled ≡ true) × IsCutShort backoff ws (p.attempt + 1)))
                  (sym plan) new.0;
            free = λ f. plan ∙ new.1 (elim f [ inl e ↦ e | inr e ↦ absurd (ground arith) ]);
          })
        (λ _. d)

  pub step-IsBounded :
      (op : ProcessOp) (p : Process)
      → IsBounded m backoff p
      → IsBounded m backoff (process_step op p)
  unfolding process_step start_process monitor_step
  step-IsBounded starts p d =
      if_cases (λ (r : Bool × Process). IsBounded m backoff r.1) p.started (λ _. d)
        (λ _. record {
          policy = d.policy;
          active = d.active;
          launched = d.launched;
          retries = d.retries;
          waited = d.waited;
          free = d.free;
        })
  step-IsBounded stops p d = stop-IsBounded p d
  step-IsBounded (wakes elapsed) p d = wake-IsBounded elapsed p d
  step-IsBounded (runs run) p d =
      if_cases (IsBounded m backoff) (not p.started || (p.finished || p.waiting)) (λ _. d)
        (λ h.
          if_cases (IsBounded m backoff) p.cancelled
            (λ _. record {
              policy = d.policy;
              active = λ e. ground arith;
              launched = d.launched;
              retries = d.retries;
              waited = d.waited;
              free = d.free;
            })
            (λ x. after_run-IsBounded run p (ground arith) (ground arith) x d))

  pub new_process-IsBounded : IsBounded m backoff (new_process m backoff)
  new_process-IsBounded = record {
    policy = (refl, refl);
    active = λ e. (refl, refl);
    launched = omega arith;
    retries = omega arith;
    waited = inl refl;
    free = λ _. refl;
  }
