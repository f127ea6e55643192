-- ===== src/Chunker/Chunks.antt =====
-- `xs.chunks(chunk_size)`: the stream cut into pieces of `chunk_size` elements, the last one
-- shorter where the length is no multiple.
use k_sentry.Prelude.{
  ℕ, zero, suc, ◌≤◌, ◌<◌, ◌≡◌, refl, ap, arith, List, [], ◌∷◌, length, take, drop, length-drop,
}

module _ {ℓ} {A : Type ℓ} where
  -- The recursion is on the rounds left; each takes at least one element.
  unfoldable pub chunks_loop : ℕ → ℕ → List A → List (List A)
  chunks_loop zero size xs = []
  chunks_loop (suc rounds) size [] = []
  chunks_loop (suc rounds) size (x ∷ xs) =
      take size (x ∷ xs) ∷ chunks_loop rounds size (drop size (x ∷ xs))

  unfoldable pub chunks : ℕ → List A → List (List A)
  unfolding chunks_loop
  chunks size xs = chunks_loop (length xs) size xs

  -- More rounds than elements change nothing.
  pub chunks_loop-enough :
      (n m size : ℕ) (xs : List A)
      → 0 < size
      → length xs ≤ n
      → length xs ≤ m
      → chunks_loop n size xs ≡ chunks_loop m size xs
  unfolding chunks_loop
  chunks_loop-enough zero zero size xs h hn hm = refl
  chunks_loop-enough zero (suc m) size [] h hn hm = refl
  chunks_loop-enough zero (suc m) size (x ∷ xs) h hn hm = absurd (omega arith)
  chunks_loop-enough (suc n) zero size [] h hn hm = refl
  chunks_loop-enough (suc n) zero size (x ∷ xs) h hn hm = absurd (omega arith)
  chunks_loop-enough (suc n) (suc m) size [] h hn hm = refl
  chunks_loop-enough (suc n) (suc m) size (x ∷ xs) h hn hm =
      let left = length-drop size (x ∷ xs) in
      ap (λ t. take size (x ∷ xs) ∷ t)
        (chunks_loop-enough n m size (drop size (x ∷ xs)) h (omega (arith, left))
          (omega (arith, left)))

  pub chunks-nil : (size : ℕ) → chunks size [] ≡ []
  unfolding chunks
  chunks-nil size = refl

  -- The first chunk, and the chunks of the rest.
  pub chunks-cons :
      (size : ℕ) (x : A) (xs : List A)
      → 0 < size
      → chunks size (x ∷ xs) ≡ take size (x ∷ xs) ∷ chunks size (drop size (x ∷ xs))
  unfolding chunks
  chunks-cons size x xs h =
      let left = length-drop size (x ∷ xs) in
      ap (λ t. take size (x ∷ xs) ∷ t)
        (chunks_loop-enough (length xs) (length (drop size (x ∷ xs))) size (drop size (x ∷ xs)) h
          (omega (arith, left)) (omega arith))

  pub chunks_pos :
      (size : ℕ) (xs : List A)
      → 0 < size
      → 0 < length xs
      → chunks size xs ≡ take size xs ∷ chunks size (drop size xs)
  chunks_pos size [] h l = absurd (omega arith)
  chunks_pos size (x ∷ xs) h l = chunks-cons size x xs h

  pub chunks_zero : (size : ℕ) (xs : List A) → length xs ≡ 0 → chunks size xs ≡ []
  chunks_zero size [] h = chunks-nil size
  chunks_zero size (x ∷ xs) h = absurd (omega arith)
