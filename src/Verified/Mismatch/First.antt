-- ===== src/Verified/Mismatch/First.antt =====
-- The search of proofs/finaltest_timefence_core_verified.rs against a description of the first
-- mismatch.
use native.Mathlib.Nat.{zero-add, add-zero}
use native.Mathlib.Decide.{ℕ_discrete}
use k_sentry.Prelude.{
  ℕ, suc, ◌+◌, ◌≡◌, ◌≢◌, ◌⊎◌, inl, inr, refl, ap, subst, arith, Option, some, List, [], ◌∷◌, ◌++◌,
  length, Bool, true, false, ◌==◌, ==_iff,
}
use k_sentry.Verified.Mismatch.{find_loop, find_first_mismatch, same_or_first_mismatch_index}

-- The traces differ at the end of a prefix that they share.
pub record IsFirst (xs ys : List ℕ) (i x y : ℕ) : Type 0 where
  pub shared : List ℕ
  pub after_x : List ℕ
  pub after_y : List ℕ
  pub left : xs ≡ shared ++ x ∷ after_x
  pub right : ys ≡ shared ++ y ∷ after_y
  pub index : i ≡ length shared
  pub differ : x ≢ y

IsFirst-cons :
    (c i x y : ℕ) (xs ys : List ℕ) → IsFirst xs ys i x y → IsFirst (c ∷ xs) (c ∷ ys) (suc i) x y
IsFirst-cons c i x y xs ys f = record {
  shared = c ∷ f.shared;
  after_x = f.after_x;
  after_y = f.after_y;
  left = ap (λ l. c ∷ l) f.left;
  right = ap (λ l. c ∷ l) f.right;
  index = ap suc f.index;
  differ = f.differ;
}

-- What the search returns.
abbrev Found : List ℕ → List ℕ → ℕ → Option (Bool × ℕ × ℕ × ℕ) → Type 0
Found xs ys start result =
    ((xs ≡ ys) × (result ≡ some (false, 0, 0, 0)))
    ⊎ ((i : ℕ) × (x : ℕ) × (y : ℕ) × IsFirst xs ys i x y × (result ≡ some (true, start + i, x, y)))

find_loop-Found :
    (start : ℕ) (xs ys : List ℕ) → length xs ≡ length ys → Found xs ys start (find_loop start xs ys)
unfolding find_loop
find_loop-Found start [] [] same = inl (refl, refl)
find_loop-Found start [] (y ∷ ys) same = absurd (omega arith)
find_loop-Found start (x ∷ xs) [] same = absurd (omega arith)
find_loop-Found start (x ∷ xs) (y ∷ ys) same = elim (ℕ_discrete x y) [
  | no differ ↦
      let test : (x == y) ≡ false = ground arith in
      inr (
        0,
        x,
        y,
        record {
          shared = [];
          after_x = xs;
          after_y = ys;
          left = refl;
          right = refl;
          index = refl;
          differ = differ;
        },
        rw (test, add-zero),
      )
  | yes equal ↦
      let test : (x == y) ≡ true = (==_iff x y).1 equal in
      elim (find_loop-Found (start + 1) xs ys (omega arith)) [
        | inl (agree, result) ↦ inl (cc, rw (test, result))
        | inr (i, a, b, first, result) ↦ inr (
          suc i,
          a,
          b,
          subst (λ t. IsFirst (x ∷ xs) (t ∷ ys) (suc i) a b) equal
              (IsFirst-cons x i a b xs ys first),
          rw (test, result) (ap (λ (k : ℕ). some (true, k, a, b)) (omega arith)),
        )
      ]
]

-- For traces of the same length the search returns. Either the traces are the same and it reports
-- that nothing differs, or it reports the length of the longest prefix that they share and the two
-- different logs behind that prefix.
pub find_first_mismatch-Found :
    (xs ys : List ℕ)
    → length xs ≡ length ys
    → ((xs ≡ ys) × (find_first_mismatch xs ys ≡ some (false, 0, 0, 0)))
      ⊎ ((i : ℕ) × (x : ℕ) × (y : ℕ) × IsFirst xs ys i x y
          × (find_first_mismatch xs ys ≡ some (true, i, x, y)))
unfolding find_first_mismatch
find_first_mismatch-Found xs ys same = elim (find_loop-Found 0 xs ys same) [
  | inl agree ↦ inl agree
  | inr (i, x, y, first, result) ↦ inr (i, x, y, first, rw zero-add at result)
]

-- For traces of the same length the index search returns and says whether the traces differ; where
-- they do it gives the length of the longest prefix that they share.
pub same_or_first_mismatch_index_iff :
    (xs ys : List ℕ)
    → length xs ≡ length ys
    → ((xs ≡ ys) × (same_or_first_mismatch_index xs ys ≡ some (false, 0)))
      ⊎ ((i : ℕ) × (x : ℕ) × (y : ℕ) × IsFirst xs ys i x y
          × (same_or_first_mismatch_index xs ys ≡ some (true, i)))
unfolding same_or_first_mismatch_index
same_or_first_mismatch_index_iff xs ys same = elim (find_first_mismatch-Found xs ys same) [
  | inl (agree, result) ↦ inl (agree, rw result)
  | inr (i, x, y, first, result) ↦ inr (i, x, y, first, rw result)
]
