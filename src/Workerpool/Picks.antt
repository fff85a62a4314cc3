-- ===== src/Workerpool/Picks.antt =====
-- Taking one of the goroutines that stand at the same point of pkg/workerpool/pool.go, and counting
-- the elements of a list.
use spark_trade_mft_raw_data.Prelude.{
  ℕ, zero, suc, ◌+◌, ◌≡◌, refl, Bool, true, false, Option, none, some, List, [], ◌∷◌, ◌++◌, length,
  arith,
}

unfoldable pub put_back : {A : Type 0} → A → Option (A × List A) → Option (A × List A)
put_back x none = none
put_back x (some (y, ys)) = some (y, x ∷ ys)

-- the n-th element of a list, and the others
unfoldable pub pick : {A : Type 0} → ℕ → List A → Option (A × List A)
unfolding put_back
pick n [] = none
pick zero (x ∷ xs) = some (x, xs)
pick (suc n) (x ∷ xs) = put_back x (pick n xs)

abbrev pub one_if : Bool → ℕ
one_if true = 1
one_if false = 0

module _ {A : Type 0} where
  -- how many elements meet a test
  abbrev pub count : (A → Bool) → List A → ℕ
  count q [] = 0
  count q (x ∷ xs) = one_if (q x) + count q xs

  pub count-append : (q : A → Bool) (xs ys : List A) → count q (xs ++ ys) ≡ count q xs + count q ys
  count-append q [] ys = omega arith
  count-append q (x ∷ xs) ys = omega (arith, count-append q xs ys)

  -- an element and the others have the elements of the list
  pub record IsSplit (xs : List A) (x : A) (ys : List A) : Type 0 where
    pub counts : (q : A → Bool) → count q xs ≡ one_if (q x) + count q ys
    pub lengths : length xs ≡ suc (length ys)

  abbrev pub IsPick : List A → Option (A × List A) → Type 0
  IsPick xs none = Unit
  IsPick xs (some (y, ys)) = IsSplit xs y ys

  put_back-IsPick :
      (x : A) (xs : List A) (o : Option (A × List A)) → IsPick xs o → IsPick (x ∷ xs) (put_back x o)
  unfolding put_back
  put_back-IsPick x xs none h = tt
  put_back-IsPick x xs (some (y, ys)) h = record {
    counts = λ q. omega (arith, h.counts q);
    lengths = omega (arith, h.lengths);
  }

  pub pick-IsPick : (n : ℕ) (xs : List A) → IsPick xs (pick n xs)
  unfolding pick
  pick-IsPick n [] = tt
  pick-IsPick zero (x ∷ xs) = record { counts = λ q. refl; lengths = refl }
  pick-IsPick (suc n) (x ∷ xs) = put_back-IsPick x xs (pick n xs) (pick-IsPick n xs)
