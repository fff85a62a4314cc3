-- ===== src/Supervisor/Waits.antt =====
-- Waits that follow a schedule, of which the last one may be cut short (pkg/process/process.go).
use spark_trade_mft_raw_data.Prelude.{
  ℕ, suc, ◌+◌, ◌≤◌, ◌≡◌, ◌⊎◌, inl, inr, ap, sym, ◌∙◌, Bool, true, false, ◌&&◌, ltb, List, [], ◌∷◌,
  ◌++◌, if_cases, if◌then◌else◌, arith,
}
use spark_trade_mft_raw_data.Supervisor.{Process, backoff_delay}
use spark_trade_mft_raw_data.Supervisor.Schedule.{schedule, planned, schedule-backoff_delay}

-- These waits are the schedule's, but for the last one, which is no longer than there.
pub record IsCutShort (backoff ws : List ℕ) (n : ℕ) : Type 0 where
  pub k : ℕ
  pub cut : ℕ
  pub full : ℕ
  pub count : n ≡ suc k
  pub planned_waits : schedule (planned backoff) n ≡ schedule (planned backoff) k ++ (full ∷ [])
  pub waits : ws ≡ schedule (planned backoff) k ++ (cut ∷ [])
  pub shorter : cut ≤ full

-- The waits of a monitor so far; the last one is cut short if the context was cancelled.
abbrev pub IsWaited : List ℕ → Process → Type 0
IsWaited backoff p =
    (p.waits ≡ schedule (planned backoff) p.attempt)
    ⊎ ((p.cancelled ≡ true) × IsCutShort backoff p.waits p.attempt)

-- the next wait of the schedule, or less of it once the context is cancelled
pub woken_waits :
    (backoff : List ℕ) (c : Bool) (elapsed : ℕ) (ws : List ℕ) (n : ℕ)
    → ws ≡ schedule (planned backoff) n
    → let d = backoff_delay backoff n in
      let new = ws ++ ((if c && ltb elapsed d then elapsed else d) ∷ []) in
      ((new ≡ schedule (planned backoff) (n + 1)) ⊎ ((c ≡ true) × IsCutShort backoff new (n + 1)))
      × (c ≡ false → new ≡ schedule (planned backoff) (n + 1))
woken_waits backoff c elapsed ws n w =
    let d = backoff_delay backoff n in
    let next : schedule (planned backoff) (n + 1) ≡ schedule (planned backoff) n ++ (d ∷ []) =
      ap (schedule (planned backoff)) {x = n + 1} {y = suc n} (omega arith)
      ∙ schedule-backoff_delay backoff n in
    let whole : ws ++ (d ∷ []) ≡ schedule (planned backoff) (n + 1) =
      ap (λ xs. xs ++ (d ∷ [])) w ∙ sym next in
    if_cases
      (λ (t : ℕ).
        ((ws ++ (t ∷ []) ≡ schedule (planned backoff) (n + 1))
          ⊎ ((c ≡ true) × IsCutShort backoff (ws ++ (t ∷ [])) (n + 1)))
        × (c ≡ false → ws ++ (t ∷ []) ≡ schedule (planned backoff) (n + 1)))
      (c && ltb elapsed d)
      (λ h. (
        inr (
          ground arith,
          record {
            k = n;
            cut = elapsed;
            full = d;
            count = omega arith;
            planned_waits = next;
            waits = ap (λ xs. xs ++ (elapsed ∷ [])) w;
            shorter = ground arith;
          },
        ),
        λ e. absurd (ground arith),
      ))
      (λ h. (inl whole, λ _. whole))
