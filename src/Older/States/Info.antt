-- ===== src/Older/States/Info.antt =====
-- `mismatch_info` of ksentry-metrics/src/bin/main1.rs.
use k_sentry.Prelude.{
  ℕ, suc, ◌+◌, ◌≡◌, ◌↔◌, refl, ap₂, subst, arith, List, [], ◌∷◌, length, false, not, ◌==◌, ==_iff,
  Bool-cases, inl, inr,
}
use k_sentry.Metrics.Mismatch.{first, is_empty, indices_loop}
use k_sentry.Older.States.{mismatch_info, divergence_loop, first_prefix_divergence}

-- Two logs of one length without a mismatch are the same.
indices_loop-empty :
    (n : ℕ) (xs ys : List ℕ) → length xs ≡ length ys → length (indices_loop n xs ys) ≡ 0 → xs ≡ ys
unfolding indices_loop
indices_loop-empty n [] [] l e = refl
indices_loop-empty n [] (y ∷ ys) l e = absurd (omega arith)
indices_loop-empty n (x ∷ xs) [] l e = absurd (omega arith)
indices_loop-empty n (x ∷ xs) (y ∷ ys) l e = elim (Bool-cases (x == y)) [
  | inl same ↦
      ap₂ (λ t ts. t ∷ ts) ((==_iff x y).0 same)
        (indices_loop-empty (n + 1) xs ys (omega arith) (rw same at e))
  | inr differs ↦
      let count : suc (length (indices_loop (n + 1) xs ys)) ≡ 0 = rw differs at e in
      absurd (omega arith)
]

indices_loop_self : (n : ℕ) (xs : List ℕ) → indices_loop n xs xs ≡ []
unfolding indices_loop
indices_loop_self n [] = refl
indices_loop_self n (x ∷ xs) = rw ((==_iff x x).1 refl) (indices_loop_self (n + 1) xs)

first-indices_loop :
    (n : ℕ) (xs ys : List ℕ) → first (indices_loop n xs ys) ≡ divergence_loop n xs ys
unfolding indices_loop divergence_loop first
first-indices_loop n [] ys = refl
first-indices_loop n (x ∷ xs) [] = refl
first-indices_loop n (x ∷ xs) (y ∷ ys) = elim (Bool-cases (x == y)) [
  | inl same ↦ rw same (first-indices_loop (n + 1) xs ys)
  | inr differs ↦ rw differs refl
]

is_empty-length : (xs : List ℕ) → not (is_empty xs) ≡ false → length xs ≡ 0
unfolding is_empty
is_empty-length [] h = refl
is_empty-length (x ∷ xs) h = ground (arith, h)

module _ (xs ys : List ℕ) where
  exists_equal : (mismatch_info xs ys).mismatch_exists ≡ false → xs ≡ ys
  unfolding mismatch_info
  exists_equal h =
      indices_loop-empty 0 xs ys (ground (arith, h))
        (is_empty-length (indices_loop 0 xs ys) (ground (arith, h)))

  count_equal : (mismatch_info xs ys).mismatch_count ≡ 0 → xs ≡ ys
  unfolding mismatch_info
  count_equal h = indices_loop-empty 0 xs ys (ground (arith, h)) (ground (arith, h))

mismatch_info_self :
    (xs : List ℕ)
    → ((mismatch_info xs xs).mismatch_exists ≡ false) × ((mismatch_info xs xs).mismatch_count ≡ 0)
unfolding mismatch_info is_empty
mismatch_info_self xs = (
  rw (indices_loop_self 0 xs, (==_iff (length xs) (length xs)).1 refl) refl,
  rw (indices_loop_self 0 xs) (ground arith),
)

-- For any two logs, also of two lengths, the older binary reports a mismatch, and counts one, exactly
-- when the logs differ, and its first index is where the search for the first divergence of the logs
-- finds it.
pub mismatch_info-equal_iff :
    (xs ys : List ℕ)
    → (((mismatch_info xs ys).mismatch_exists ≡ false) ↔ (xs ≡ ys))
      × (((mismatch_info xs ys).mismatch_count ≡ 0) ↔ (xs ≡ ys))
      × ((mismatch_info xs ys).first_index ≡ first_prefix_divergence xs ys)
unfolding mismatch_info first_prefix_divergence
mismatch_info-equal_iff xs ys = (
  (
    exists_equal xs ys,
    λ e.
        subst (λ (l : List ℕ). (mismatch_info xs l).mismatch_exists ≡ false) e
          (mismatch_info_self xs).0,
  ),
  (
    count_equal xs ys,
    λ e.
        subst (λ (l : List ℕ). (mismatch_info xs l).mismatch_count ≡ 0) e (mismatch_info_self xs).1,
  ),
  first-indices_loop 0 xs ys,
)
