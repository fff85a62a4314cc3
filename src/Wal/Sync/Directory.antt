-- ===== src/Wal/Sync/Directory.antt =====
-- The files of the log's directory in the order of their names (pkg/storage/wal.go).
use spark_trade_mft_raw_data.Prelude.{
  ℕ, suc, ◌≤◌, ◌<◌, ◌≡◌, refl, sym, ◌∙◌, ap, true, false, List, [], ◌∷◌, ◌++◌, map, append-nil,
  append_assoc, ◌==◌, arith, All, le→ltb_false,
}
use spark_trade_mft_raw_data.Wal.{
  WalFile, insert_file, open_file, beside, file_name, EventJson, file_events, replay,
}
use spark_trade_mft_raw_data.Wal.Sync.{survives}

abbrev pub AllBelow : ℕ → List WalFile → Type 0
AllBelow n fs = All (λ f. f.name < n) fs

pub AllBelow-le : (n m : ℕ) (fs : List WalFile) → n ≤ m → AllBelow n fs → AllBelow m fs
AllBelow-le n m [] k h = tt
AllBelow-le n m (f ∷ fs) k h = (omega (arith, h.0), AllBelow-le n m fs k h.1)

pub insert_file-last :
    (g : WalFile) (fs : List WalFile) → AllBelow g.name fs → insert_file g fs ≡ fs ++ (g ∷ [])
unfolding insert_file
insert_file-last g [] h = refl
insert_file-last g (f ∷ fs) h =
    rw (le→ltb_false g.name f.name (omega (arith, h.0)))
      (ap (λ gs. f ∷ gs) (insert_file-last g fs h.1))

abbrev pub new_file : ℕ → ℕ → WalFile
new_file name room = record {
  name = name;
  sink = record { written = []; budget = room };
  synced = 0;
  is_open = true;
}

pub open_file-new :
    (name room : ℕ) (fs : List WalFile)
    → AllBelow name fs
    → open_file name room fs ≡ (new_file name room, fs)
unfolding open_file beside
open_file-new name room [] h = refl
open_file-new name room (f ∷ fs) h =
    let e : (f.name == name) ≡ false = ground (arith, h.0) in
    rw e (ap (beside f) (open_file-new name room fs h.1))

pub replay-last :
    {Ev : Type 0} (json : EventJson Ev) (cut : ℕ → ℕ) (fs : List WalFile) (g : WalFile)
    → replay json (map (survives cut) (fs ++ (g ∷ [])))
      ≡ replay json (map (survives cut) fs) ++ file_events json (survives cut g)
unfolding replay
replay-last json cut [] g = append-nil _
replay-last json cut (f ∷ fs) g =
    ap (λ evs. file_events json (survives cut f) ++ evs) (replay-last json cut fs g)
    ∙ sym (
        append_assoc (file_events json (survives cut f)) (replay json (map (survives cut) fs))
          (file_events json (survives cut g)))

-- names grow with the counter until its six digits run out, on a clock that does not go back
pub file_name-lt :
    (clock : ℕ → ℕ) (n : ℕ)
    → clock n ≤ clock (suc n)
    → suc n < 1_000_000
    → file_name clock n < file_name clock (suc n)
file_name-lt clock n h k = omega arith
