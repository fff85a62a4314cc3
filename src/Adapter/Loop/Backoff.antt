-- ===== src/Adapter/Loop/Backoff.antt =====
-- The waits of reconnect in binance.go and ib.go of pkg/adapter.
use spark_trade_mft_raw_data.Prelude.{
  ℕ, zero, suc, ◌-◌, ◌≤◌, ◌<◌, false, Bool-cases, if_cases, inl, inr, Option, none, some, List, [],
  ◌∷◌, ◌++◌, length, get_elem?, leb, le→leb, le→leb_false, arith, ◌≡◌, ◌≢◌, refl, sym, ap, ◌∙◌,
  subst,
}
use spark_trade_mft_raw_data.Prelude.Int.{ℤ}
use spark_trade_mft_raw_data.Adapter.{
  Failure, Adapter, add_error, attempt_failed, backoff_at, rounds,
}
use spark_trade_mft_raw_data.Adapter.Loop.{
  Source, Attempt, Reconnect, after_dial, try_round, reconnect_from, reconnect,
}
use spark_trade_mft_raw_data.Adapter.Loop.Laws.{IsKept}

-- The backoffs without the first, but the last one stays.
unfoldable onward : List ℤ → List ℤ
onward [] = []
onward (s ∷ []) = s ∷ []
onward (s ∷ t ∷ ss) = t ∷ ss

-- `n` waits: the backoffs in order, and then the last one again and again
unfoldable pub schedule : List ℤ → ℕ → List ℤ
unfolding onward
schedule ss zero = []
schedule [] (suc n) = []
schedule (s ∷ ss) (suc n) = s ∷ schedule (onward (s ∷ ss)) n

unfoldable onward_by : ℕ → List ℤ → List ℤ
unfolding onward
onward_by zero ss = ss
onward_by (suc k) ss = onward_by k (onward ss)

unfoldable first : List ℤ → Option ℤ
first [] = none
first (s ∷ ss) = some s

onward_by-onward : (k : ℕ) (ss : List ℤ) → onward_by (suc k) ss ≡ onward (onward_by k ss)
unfolding onward_by
onward_by-onward zero ss = refl
onward_by-onward (suc k) ss = onward_by-onward k (onward ss)

onward_by-nil : (k : ℕ) → onward_by k [] ≡ []
unfolding onward_by onward
onward_by-nil zero = refl
onward_by-nil (suc k) = onward_by-nil k

onward_by-one : (k : ℕ) (s : ℤ) → onward_by k (s ∷ []) ≡ s ∷ []
unfolding onward_by onward
onward_by-one zero s = refl
onward_by-one (suc k) s = onward_by-one k s

-- past the end it is the last backoff
backoff_at-past :
    (ss : List ℤ) (k : ℕ) → length ss ≤ k → backoff_at ss k ≡ get_elem? ss (length ss - 1)
unfolding backoff_at
backoff_at-past ss k h = rw (le→leb (length ss) k h)

backoff_at-within : (ss : List ℤ) (k : ℕ) → k < length ss → backoff_at ss k ≡ get_elem? ss k
unfolding backoff_at
backoff_at-within ss k h = rw (le→leb_false (length ss) k h)

backoff_at-suc :
    (s t : ℤ) (ss : List ℤ) (k : ℕ) → backoff_at (s ∷ t ∷ ss) (suc k) ≡ backoff_at (t ∷ ss) k
unfolding backoff_at
backoff_at-suc s t ss k = elim (Bool-cases (leb (length (t ∷ ss)) k)) [
  | inl e ↦
      backoff_at-past (s ∷ t ∷ ss) (suc k) (ground arith)
      ∙ (index ∙ sym (backoff_at-past (t ∷ ss) k (ground arith)))
  | inr e ↦
      backoff_at-within (s ∷ t ∷ ss) (suc k) (ground arith)
      ∙ sym (backoff_at-within (t ∷ ss) k (ground arith))
]
  where
    index :
        get_elem? (s ∷ t ∷ ss) (length (s ∷ t ∷ ss) - 1)
        ≡ get_elem? (s ∷ t ∷ ss) (suc (length (t ∷ ss) - 1))
    index = ap (get_elem? (s ∷ t ∷ ss)) {y = suc (length (t ∷ ss) - 1)} (omega arith)

-- the backoff at an attempt is the first of those that are left
backoff_at-first : (k : ℕ) (ss : List ℤ) → backoff_at ss k ≡ first (onward_by k ss)
unfolding onward_by onward first
backoff_at-first zero [] = backoff_at-past [] 0 (omega arith)
backoff_at-first zero (s ∷ ss) = backoff_at-within (s ∷ ss) 0 (omega arith)
backoff_at-first (suc k) [] =
    backoff_at-past [] (suc k) (omega arith) ∙ ap first (sym (onward_by-nil k))
backoff_at-first (suc k) (s ∷ []) =
    backoff_at-past (s ∷ []) (suc k) (omega arith) ∙ ap first (sym (onward_by-one k s))
backoff_at-first (suc k) (s ∷ t ∷ ss) = backoff_at-suc s t ss k ∙ backoff_at-first k (t ∷ ss)

abbrev pub HasBackoff : {C : Type 0} → List ℤ → Adapter C → Type 0
HasBackoff ss a = a.backoff_seconds ≡ ss

-- The waits are the first of `n` waits with the backoffs, and there is a panic only if these are
-- none at all.
pub record Scheduled {C : Type 0} (ss : List ℤ) (n : ℕ) (r : Reconnect C) : Type 0 where
  pub left : List ℤ
  pub waits : r.waits ++ left ≡ schedule ss n
  pub sound : ss ≢ [] → r.panicked ≡ false

onward-nonempty : (s : ℤ) (ss : List ℤ) → onward (s ∷ ss) ≢ []
unfolding onward
onward-nonempty s [] = grind arith
onward-nonempty s (t ∷ ss) = grind arith

-- connecting and the bookkeeping of errors leave the backoffs alone
abbrev pub LeavesBackoff : {C D X : Type 0} → Source C D X → Type 0
LeavesBackoff src = (ss : List ℤ) → IsKept src (HasBackoff ss)

module _ {C D X : Type 0} (src : Source C D X) (leaves : LeavesBackoff src) where
  after_dial-Scheduled :
      (n : ℕ) (rest : Adapter C → Reconnect C) (k : ℕ) (s : ℤ) (ss all : List ℤ)
      (r : Option Failure × Adapter C)
      → ((a : Adapter C) → HasBackoff all a → Scheduled (onward (s ∷ ss)) n (rest a))
      → HasBackoff all r.1
      → Scheduled (s ∷ ss) (suc n) (after_dial src rest k s r)
  unfolding after_dial schedule
  after_dial-Scheduled n rest k s ss all (none, a) h e = record {
    left = schedule (onward (s ∷ ss)) n;
    waits = refl;
    sound = λ _. refl;
  }
  after_dial-Scheduled n rest k s ss all (some f, a) h e =
      let r =
        h (add_error (attempt_failed (suc k) f) a)
          ((leaves all).of_error (attempt_failed (suc k) f) a e) in
      record {
        left = r.left;
        waits = ap (λ ws. s ∷ ws) r.waits;
        sound = λ _. r.sound (onward-nonempty s ss);
      }

  try_round-Scheduled :
      (n : ℕ) (rest : Adapter C → Reconnect C) (k : ℕ) (t : Attempt D) (l all : List ℤ)
      (a : Adapter C)
      → ((a : Adapter C) → HasBackoff all a → Scheduled (onward l) n (rest a))
      → HasBackoff all a
      → Scheduled l (suc n) (try_round src rest k t (first l) a)
  unfolding try_round first schedule
  try_round-Scheduled n rest k t [] all a h e = record {
    left = [];
    waits = refl;
    sound = λ ne. elim (ne refl) [ ];
  }
  try_round-Scheduled n rest k t (s ∷ ss) all a h e =
      if_cases (Scheduled (s ∷ ss) (suc n)) t.gone
        (λ _. record { left = schedule (onward (s ∷ ss)) n; waits = refl; sound = λ _. refl })
        (λ _.
          after_dial-Scheduled n rest k s ss all (src.connect t.dial a) h
            ((leaves all).of_connect t.dial a e))

  reconnect_from-Scheduled :
      (n k : ℕ) (rs : ℕ → Attempt D) (all : List ℤ) (a : Adapter C)
      → HasBackoff all a
      → Scheduled (onward_by k all) n (reconnect_from src n k rs a)
  unfolding reconnect_from schedule
  reconnect_from-Scheduled zero k rs all a e = record { left = []; waits = refl; sound = λ _. refl }
  reconnect_from-Scheduled (suc n) k rs all a e =
      subst
        (λ b.
          Scheduled (onward_by k all) (suc n)
            (try_round src (reconnect_from src n (suc k) rs) k (rs k) b a))
        (sym (ap (λ ss. backoff_at ss k) e ∙ backoff_at-first k all))
        (try_round-Scheduled n (reconnect_from src n (suc k) rs) k (rs k) (onward_by k all) all a
          (λ c h.
            subst (λ l. Scheduled l n (reconnect_from src n (suc k) rs c)) (onward_by-onward k all)
              (reconnect_from-Scheduled n (suc k) rs all c h))
          e)

  -- Whatever the dialling comes to, the waits of reconnect are an initial part of the schedule for
  -- the attempts that are allowed: the adapter's backoffs in order, continued with the last one. A
  -- panic needs an empty list of backoffs. Connecting leaves the backoffs alone.
  pub reconnect-Scheduled :
      (rs : ℕ → Attempt D) (a : Adapter C)
      → Scheduled a.backoff_seconds (rounds a.reconnect_attempts) (reconnect src rs a)
  unfolding reconnect onward_by
  reconnect-Scheduled rs a =
      reconnect_from-Scheduled (rounds a.reconnect_attempts) 0 rs a.backoff_seconds a refl
