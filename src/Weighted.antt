-- ===== src/Weighted.antt =====
-- The abstract digest of a stream: the sum of its elements, each times a weight that depends on
-- its position. The accumulators differ in their weights only.
pub mod Edits
pub mod Interface
use native.Mathlib.Nat.{mul_assoc, mul-add, add_assoc, add-mod}
use k_sentry.Prelude.{
  ℕ, zero, suc, ◌+◌, ◌*◌, ◌%◌, ◌^◌, ◌≡◌, refl, ap, ◌∙◌, arith, List, [], ◌∷◌, ◌++◌, length, map,
  sym, ap₂,
}
use k_sentry.Prelude.Mod.{mod-mul-mod}

module _ (weight : ℕ → ℕ) where
  -- The digest of a stream whose first element stands at position `i`.
  unfoldable pub weighted : ℕ → List ℕ → ℕ
  weighted i [] = 0
  weighted i (x ∷ xs) = x * weight i + weighted (suc i) xs

  pub weighted-append :
      (i : ℕ) (xs ys : List ℕ) → weighted i (xs ++ ys) ≡ weighted i xs + weighted (i + length xs) ys
  unfolding weighted
  weighted-append i [] ys =
      let at : i + 0 ≡ i = omega arith in omega (arith, ap (λ (t : ℕ). weighted t ys) at)
  weighted-append i (x ∷ xs) ys =
      let at : suc i + length xs ≡ i + suc (length xs) = omega arith in
      omega (arith, weighted-append (suc i) xs ys, ap (λ (t : ℕ). weighted t ys) at)

  -- The elements may be reduced first.
  pub weighted-mod :
      (p i : ℕ) (xs : List ℕ) → weighted i (map (λ x. x % p) xs) % p ≡ weighted i xs % p
  unfolding weighted
  weighted-mod p i [] = refl
  weighted-mod p i (x ∷ xs) =
      add-mod _ _ p
      ∙ ap₂ (λ s t. (s + t) % p) (mod-mul-mod x (weight i) p) (weighted-mod p (suc i) xs)
      ∙ sym (add-mod _ _ p)

-- The weights of the K-Sentry accumulator over a base `q` and its exponents.
abbrev pub powers : (ℕ → ℕ) → ℕ → ℕ → ℕ
powers exponent q i = q ^ exponent i
