-- ===== src/Supervisor/Schedule.antt =====
-- The waits of a backoff, one behind the other (pkg/process/process.go).
use spark_trade_mft_raw_data.Prelude.{
  ℕ, zero, suc, ◌-◌, ◌≡◌, ap, ◌∙◌, sym, Bool, true, false, Bool-cases, inl, inr, List, [], ◌∷◌,
  ◌++◌, length, get_or, leb, ◌==◌, if◌then◌else◌, arith,
}
use spark_trade_mft_raw_data.Supervisor.{default_backoff, backoff_delay}

-- so many waits: those of the backoff in order, and then the last one again and again
abbrev pub schedule : List ℕ → ℕ → List ℕ
schedule ds zero = []
schedule [] (suc n) = []
schedule (d ∷ []) (suc n) = d ∷ schedule (d ∷ []) n
schedule (d ∷ e ∷ ds) (suc n) = d ∷ schedule (e ∷ ds) n

-- the backoff of a policy, or the default one, 1, 2, 4, 8, 16 and 30 seconds
abbrev pub planned : List ℕ → List ℕ
planned [] = 1 ∷ 2 ∷ 4 ∷ 8 ∷ 16 ∷ 30 ∷ []
planned (d ∷ ds) = d ∷ ds

abbrev clamped : List ℕ → ℕ → ℕ
clamped ds n = get_or ds (if leb (length ds) n then length ds - 1 else n) 0

clamped_one : (d n : ℕ) → clamped (d ∷ []) n ≡ d
clamped_one d zero = ground arith
clamped_one d (suc n) = ground arith

clamped-suc : (d e : ℕ) (ds : List ℕ) (n : ℕ) → clamped (d ∷ e ∷ ds) (suc n) ≡ clamped (e ∷ ds) n
clamped-suc d e ds n = elim (Bool-cases (leb (length (e ∷ ds)) n)) [
  | inl h ↦
      past true (ground arith)
      ∙ ap (λ k. get_or (d ∷ e ∷ ds) k 0) {x = length (d ∷ e ∷ ds) - 1}
          {y = suc (length (e ∷ ds) - 1)} (omega arith)
      ∙ sym (ap (λ b. get_or (e ∷ ds) (if b then length (e ∷ ds) - 1 else n) 0) h)
  | inr h ↦
      past false (ground arith)
      ∙ sym (ap (λ b. get_or (e ∷ ds) (if b then length (e ∷ ds) - 1 else n) 0) h)
]
  where
    past :
        (c : Bool)
        → leb (length (d ∷ e ∷ ds)) (suc n) ≡ c
        → clamped (d ∷ e ∷ ds) (suc n)
          ≡ get_or (d ∷ e ∷ ds) (if c then length (d ∷ e ∷ ds) - 1 else suc n) 0
    past c = ap (λ b. get_or (d ∷ e ∷ ds) (if b then length (d ∷ e ∷ ds) - 1 else suc n) 0)

schedule-suc :
    (d : ℕ) (ds : List ℕ) (n : ℕ)
    → schedule (d ∷ ds) (suc n) ≡ schedule (d ∷ ds) n ++ (clamped (d ∷ ds) n ∷ [])
schedule-suc d [] zero = ap (λ x. x ∷ []) (sym (clamped_one d 0))
schedule-suc d (e ∷ ds) zero =
    let first : leb (length (d ∷ e ∷ ds)) 0 ≡ false = ground arith in
    ap (λ x. x ∷ [])
      (sym (ap (λ b. get_or (d ∷ e ∷ ds) (if b then length (d ∷ e ∷ ds) - 1 else 0) 0) first))
schedule-suc d [] (suc n) =
    ap (λ xs. d ∷ xs)
      (schedule-suc d [] n
        ∙ ap (λ x. schedule (d ∷ []) n ++ (x ∷ [])) (clamped_one d n ∙ sym (clamped_one d (suc n))))
schedule-suc d (e ∷ ds) (suc n) =
    ap (λ xs. d ∷ xs)
      (schedule-suc e ds n ∙ ap (λ x. schedule (e ∷ ds) n ++ (x ∷ [])) (sym (clamped-suc d e ds n)))

-- the next wait of the monitor is the next one of the schedule
pub schedule-backoff_delay :
    (backoff : List ℕ) (n : ℕ)
    → schedule (planned backoff) (suc n)
      ≡ schedule (planned backoff) n ++ (backoff_delay backoff n ∷ [])
unfolding backoff_delay
schedule-backoff_delay [] n = schedule-suc 1 (2 ∷ 4 ∷ 8 ∷ 16 ∷ 30 ∷ []) n
schedule-backoff_delay (d ∷ ds) n =
    let filled : (length (d ∷ ds) == 0) ≡ false = ground arith in
    schedule-suc d ds n
    ∙ ap (λ x. schedule (d ∷ ds) n ++ (x ∷ []))
        (sym (
          ap
            (λ b.
              let bp = if b then default_backoff else d ∷ ds in
              get_or bp (if leb (length bp) n then length bp - 1 else n) 0)
            filled))
