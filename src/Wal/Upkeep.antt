-- ===== src/Wal/Upkeep.antt =====
-- The choice of a log (NewWALWriter of pkg/storage/wal_writer.go), and CleanOld and IsHealthy of
-- pkg/storage/wal.go.
use text.Mathlib.Text.{◌==◌ as str_eq}
use spark_trade_mft_raw_data.Prelude.{
  ℕ, ◌-◌, Bool, true, false, ◌||◌, ◌&&◌, not, Option, none, some, List, [], ◌∷◌, map, String, ltb,
  ◌==◌, if◌then◌else◌, Subseq, Subseq-nil, Subseq-refl, Subseq-append,
}
use spark_trade_mft_raw_data.Wal.{EventJson, WalFile, file_events, replay}

pub data WalKind : Type 0 where
  sync_wal batched_wal : WalKind

-- NewWALWriter; the first argument is strings.ToLower of strings.TrimSpace
unfoldable pub wal_kind : (String → String) → String → WalKind
wal_kind normal mode =
    let m = normal mode in
    if str_eq m "sync" || str_eq m "fsync" || str_eq m "durable" then sync_wal else batched_wal

-- CleanOld on the files of the directory: what Stat gives as the time of the last change, or its
-- error, and whether Remove fails; the file that is being written to is not spared.
unfoldable pub is_removed : (ℕ → Option ℕ) → (ℕ → Bool) → ℕ → WalFile → Bool
is_removed modified remove_fails cutoff f = elim (modified f.name) [
  | none ↦ false
  | some t ↦ ltb t cutoff && not (remove_fails f.name)
]

unfoldable pub clean_old : (ℕ → Option ℕ) → (ℕ → Bool) → ℕ → List WalFile → List WalFile
unfolding is_removed
clean_old modified remove_fails cutoff [] = []
clean_old modified remove_fails cutoff (f ∷ fs) =
    let rest = clean_old modified remove_fails cutoff fs in
    if is_removed modified remove_fails cutoff f then rest else f ∷ rest

-- what IsHealthy looks at; no time stands for the zero one
pub record WalStats : Type 0 where
  pub running : Bool
  pub total_written : ℕ
  pub last_write : Option ℕ

-- IsHealthy, in nanoseconds
unfoldable pub is_wal_healthy : ℕ → WalStats → Bool
is_wal_healthy now s =
    if not s.running
    then false
    else if s.total_written == 0
    then false
    else elim s.last_write [ none ↦ true | some t ↦ not (ltb 60_000_000_000 (now - t)) ]

Subseq-map :
    {A B : Type 0} (f : A → B) {xs ys : List A} → Subseq xs ys → Subseq (map f xs) (map f ys)
Subseq-map f Subseq.nil = Subseq.nil
Subseq-map f (Subseq.skip y h) = Subseq.skip (f y) (Subseq-map f h)
Subseq-map f (Subseq.keep x h) = Subseq.keep (f x) (Subseq-map f h)

replay-Subseq :
    {Ev : Type 0} (json : EventJson Ev) {xs ys : List (List ℕ)}
    → Subseq xs ys
    → Subseq (replay json xs) (replay json ys)
unfolding replay
replay-Subseq json Subseq.nil = Subseq.nil
replay-Subseq json (Subseq.skip y h) =
    Subseq-append (Subseq-nil (file_events json y)) (replay-Subseq json h)
replay-Subseq json (Subseq.keep x h) =
    Subseq-append (Subseq-refl (file_events json x)) (replay-Subseq json h)

-- the files that have changed since
abbrev pub younger : (ℕ → Option ℕ) → ℕ → List WalFile → List WalFile
younger modified cutoff [] = []
younger modified cutoff (f ∷ fs) =
    let rest = younger modified cutoff fs in
    elim (modified f.name) [ none ↦ rest | some t ↦ if ltb t cutoff then rest else f ∷ rest ]

clean_old-between :
    (modified : ℕ → Option ℕ) (remove_fails : ℕ → Bool) (cutoff : ℕ) (fs : List WalFile)
    → Subseq (clean_old modified remove_fails cutoff fs) fs
      × Subseq (younger modified cutoff fs) (clean_old modified remove_fails cutoff fs)
unfolding clean_old is_removed
clean_old-between modified remove_fails cutoff [] = (Subseq.nil, Subseq.nil)
clean_old-between modified remove_fails cutoff (f ∷ fs) =
    let (h, k) = clean_old-between modified remove_fails cutoff fs in
    let kept = clean_old modified remove_fails cutoff fs in
    let young = younger modified cutoff fs in
    elim (modified f.name)
      as (λ o.
        Subseq
          (if (elim o [ none ↦ false | some t ↦ ltb t cutoff && not (remove_fails f.name) ])
            then kept
            else f ∷ kept)
          (f ∷ fs)
        × Subseq (elim o [ none ↦ young | some t ↦ if ltb t cutoff then young else f ∷ young ])
            (if (elim o [ none ↦ false | some t ↦ ltb t cutoff && not (remove_fails f.name) ])
              then kept
              else f ∷ kept)) [
                | none ↦ (Subseq.keep f h, Subseq.skip f k)
                | some t ↦ both (ltb t cutoff) (remove_fails f.name) f h k
              ]
  where
    both :
        (old fails : Bool) (f : WalFile) {fs kept young : List WalFile}
        → Subseq kept fs
        → Subseq young kept
        → Subseq (if old && not fails then kept else f ∷ kept) (f ∷ fs)
          × Subseq (if old then young else f ∷ young) (if old && not fails then kept else f ∷ kept)
    both true true f h k = (Subseq.keep f h, Subseq.skip f k)
    both true false f h k = (Subseq.skip f h, k)
    both false fails f h k = (Subseq.keep f h, Subseq.keep f k)

-- Whatever the times of the files and whichever removals fail: what Replay gives after CleanOld is
-- part of what it gave before, in the same order, and holds all events of the files that have changed
-- since the cutoff, in their order.
pub clean_old-replay :
    {Ev : Type 0} (json : EventJson Ev) (contents : WalFile → List ℕ) (modified : ℕ → Option ℕ)
    (remove_fails : ℕ → Bool) (cutoff : ℕ) (fs : List WalFile)
    → let kept = clean_old modified remove_fails cutoff fs in
      Subseq (replay json (map contents kept)) (replay json (map contents fs))
      × Subseq
          (replay json (map contents (younger modified cutoff fs)))
          (replay json (map contents kept))
clean_old-replay json contents modified remove_fails cutoff fs =
    let (h, k) = clean_old-between modified remove_fails cutoff fs in
    (replay-Subseq json (Subseq-map contents h), replay-Subseq json (Subseq-map contents k))
