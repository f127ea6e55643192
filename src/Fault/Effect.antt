-- ===== src/Fault/Effect.antt =====
-- What the faults of timefence-core/src/fault.rs do to a stream.
use mathlib.Core.Option
use native.Mathlib.Numerals.{add-one}
use k_sentry.Prelude.{
  ℕ, suc, ◌+◌, ◌<◌, ◌≡◌, refl, arith, some, List, [], ◌∷◌, ◌++◌, length, length-append, lt→ltb,
}
use k_sentry.Fault.{drop_loop, drop_one, swap, swap_adjacent, duplicate_loop, duplicate_one}

module _ {ℓ} {A : Type ℓ} where
  drop_loop-past : (k i : ℕ) (xs : List A) → k < i → drop_loop k i xs ≡ xs
  unfolding drop_loop
  drop_loop-past k i [] h = refl
  drop_loop-past k i (x ∷ xs) h = ground (arith, drop_loop-past k (i + 1) xs (omega arith))

  drop_loop-at :
      (k i : ℕ) (pre : List A) (x : A) (post : List A)
      → k ≡ i + length pre
      → drop_loop k i (pre ++ x ∷ post) ≡ pre ++ post
  unfolding drop_loop
  drop_loop-at k i [] x post h = ground (arith, drop_loop-past k (i + 1) post (omega arith))
  drop_loop-at k i (y ∷ pre) x post h =
      ground (arith, drop_loop-at k (i + 1) pre x post (omega arith))

  -- `drop_one` leaves out the element at the index and keeps the others in order.
  pub drop_one-at :
      (pre : List A) (x : A) (post : List A) → drop_one (pre ++ x ∷ post) (length pre) ≡ pre ++ post
  unfolding drop_one
  drop_one-at pre x post = drop_loop-at (length pre) 0 pre x post (omega arith)

  duplicate_loop-past : (k i : ℕ) (xs : List A) → k < i → duplicate_loop k i xs ≡ xs
  unfolding duplicate_loop
  duplicate_loop-past k i [] h = refl
  duplicate_loop-past k i (x ∷ xs) h =
      ground (arith, duplicate_loop-past k (i + 1) xs (omega arith))

  duplicate_loop-at :
      (k i : ℕ) (pre : List A) (x : A) (post : List A)
      → k ≡ i + length pre
      → duplicate_loop k i (pre ++ x ∷ post) ≡ pre ++ x ∷ x ∷ post
  unfolding duplicate_loop
  duplicate_loop-at k i [] x post h =
      ground (arith, duplicate_loop-past k (i + 1) post (omega arith))
  duplicate_loop-at k i (y ∷ pre) x post h =
      ground (arith, duplicate_loop-at k (i + 1) pre x post (omega arith))

  pub duplicate_one-at :
      (pre : List A) (x : A) (post : List A)
      → duplicate_one (pre ++ x ∷ post) (length pre) ≡ pre ++ x ∷ x ∷ post
  unfolding duplicate_one
  duplicate_one-at pre x post = duplicate_loop-at (length pre) 0 pre x post (omega arith)

  swap_cons :
      (z : A) (l : List A) (i j : ℕ)
      → swap (z ∷ l) (suc i) (suc j) ≡ Option.map (λ t. z ∷ t) (swap l i j)
  unfolding swap
  swap_cons z l i j = ground arith

  swap_middle :
      (pre : List A) (x y : A) (post : List A)
      → swap (pre ++ x ∷ y ∷ post) (length pre) (suc (length pre)) ≡ some (pre ++ y ∷ x ∷ post)
  unfolding swap
  swap_middle [] x y post = refl
  swap_middle (z ∷ pre) x y post = rw (swap_cons z (pre ++ x ∷ y ∷ post), swap_middle pre x y post)

  -- `swap_adjacent` exchanges the elements at the index and behind it.
  pub swap_adjacent-at :
      (pre : List A) (x y : A) (post : List A)
      → swap_adjacent (pre ++ x ∷ y ∷ post) (length pre) ≡ some (pre ++ y ∷ x ∷ post)
  unfolding swap_adjacent
  swap_adjacent-at pre x y post =
      let inside : length pre + 1 < length (pre ++ x ∷ y ∷ post) =
        omega (arith, length-append pre (x ∷ y ∷ post)) in
      rw (lt→ltb _ _ inside, add-one) (swap_middle pre x y post)
