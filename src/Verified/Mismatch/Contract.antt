-- ===== src/Verified/Mismatch/Contract.antt =====
-- The contract of the search in proofs/finaltest_timefence_core_verified.rs.
use k_sentry.Prelude.{
  ℕ, zero, suc, ◌<◌, ◌≡◌, ◌≢◌, refl, sym, ap, ◌∙◌, arith, some, List, [], ◌∷◌, ◌++◌, length, Bool,
  true, false, inl, inr,
}
use k_sentry.Verified.Prefix.{elem}
use k_sentry.Verified.Mismatch.{find_first_mismatch, FirstMismatchAt}
use k_sentry.Verified.Mismatch.First.{IsFirst, find_first_mismatch-Found}

-- An element behind a prefix, and the elements of the prefix.
elem-append_middle :
    (shared after : List ℕ) (x : ℕ) → elem (shared ++ x ∷ after) (length shared) ≡ x
elem-append_middle [] after x = refl
elem-append_middle (s ∷ shared) after x = elem-append_middle shared after x

elem-append_left :
    (shared xs ys : List ℕ) (j : ℕ)
    → j < length shared
    → elem (shared ++ xs) j ≡ elem (shared ++ ys) j
elem-append_left [] xs ys j small = absurd (omega arith)
elem-append_left (s ∷ shared) xs ys zero small = refl
elem-append_left (s ∷ shared) xs ys (suc j) small = elem-append_left shared xs ys j (omega arith)

length-append_middle :
    (shared after : List ℕ) (x : ℕ) → length shared < length (shared ++ x ∷ after)
length-append_middle [] after x = omega arith
length-append_middle (s ∷ shared) after x = omega (arith, length-append_middle shared after x)

module _ (xs ys : List ℕ) (i x y : ℕ) (first : IsFirst xs ys i x y) where
  IsFirst-elem_left : elem xs i ≡ x
  IsFirst-elem_left = rw (first.left, first.index) (elem-append_middle first.shared first.after_x x)

  IsFirst-elem_right : elem ys i ≡ y
  IsFirst-elem_right =
      rw (first.right, first.index) (elem-append_middle first.shared first.after_y y)

  IsFirst-FirstMismatchAt : length xs ≡ length ys → FirstMismatchAt xs ys i
  IsFirst-FirstMismatchAt same = (
    same,
    rw (first.left, first.index) (length-append_middle first.shared first.after_x x),
    λ e. first.differ (sym IsFirst-elem_left ∙ e ∙ IsFirst-elem_right),
    λ j small.
        rw (first.left, first.right)
          (elem-append_left first.shared (x ∷ first.after_x) (y ∷ first.after_y) j
            (omega (arith, first.index))),
  )

-- What the source ensures of a result.
abbrev pub Ensures : List ℕ → List ℕ → Bool × ℕ × ℕ × ℕ → Type 0
Ensures logs1 logs2 (true, i, x, y) =
    (i < length logs1)
    × (x ≡ elem logs1 i)
    × (y ≡ elem logs2 i)
    × (x ≢ y)
    × FirstMismatchAt logs1 logs2 i
Ensures logs1 logs2 (false, i, x, y) = (j : ℕ) → j < length logs1 → elem logs1 j ≡ elem logs2 j

-- For traces of the same length the search returns, and its result has what the source ensures:
-- with the flag set, the index is in range, the two values stand there and differ, and the traces
-- agree before it; without the flag they agree everywhere.
pub find_first_mismatch-Ensures :
    (logs1 logs2 : List ℕ)
    → length logs1 ≡ length logs2
    → (res : Bool × ℕ × ℕ × ℕ) × (find_first_mismatch logs1 logs2 ≡ some res)
      × Ensures logs1 logs2 res
find_first_mismatch-Ensures logs1 logs2 same = elim (find_first_mismatch-Found logs1 logs2 same) [
  | inl (agree, result) ↦ ((false, 0, 0, 0), result, λ j small. ap (λ (l : List ℕ). elem l j) agree)
  | inr (i, x, y, first, result) ↦ (
    (true, i, x, y),
    result,
    let at = IsFirst-FirstMismatchAt logs1 logs2 i x y first same in
        (
          at.1,
          sym (IsFirst-elem_left logs1 logs2 i x y first),
          sym (IsFirst-elem_right logs1 logs2 i x y first),
          first.differ,
          at,
        ),
  )
]
