-- ===== src/Weighted/Interface.antt =====
-- What the accumulators of the repository have in common: the digest of a stream is its weighted
-- sum modulo `p`. A client sees the digest through this interface only.
use mathlib.Core.Option.{some-injective}
use k_sentry.Prelude.{
  ℕ, suc, ◌+◌, ◌*◌, ◌%◌, ◌<◌, ◌≡◌, ◌↔◌, sym, ap, ◌∙◌, arith, Option, some, List, ◌∷◌, ◌++◌, length,
  length-append, subst, refl,
}
use k_sentry.Weighted.{weighted}
use k_sentry.Weighted.Edits.{edit_iff, swap_iff}

-- `Accepts` says for which lengths the accumulator returns.
pub record StreamDigest (p : ℕ) : Type 1 where
  pub weight : ℕ → ℕ
  pub Accepts : ℕ → Type 0
  pub digest_of : List ℕ → Option ℕ
  pub digest_of-weighted :
      (xs : List ℕ) → Accepts (length xs) → digest_of xs ≡ some (weighted weight 0 xs % p)

module _ {p : ℕ} (pos : 0 < p) (d : StreamDigest p) where
  same_digest_iff :
      (xs ys : List ℕ)
      → d.Accepts (length xs)
      → d.Accepts (length ys)
      → (d.digest_of xs ≡ d.digest_of ys)
        ↔ (weighted d.weight 0 xs % p ≡ weighted d.weight 0 ys % p)
  same_digest_iff xs ys hx hy = (
    λ e. some-injective _ _ (sym (d.digest_of-weighted xs hx) ∙ e ∙ d.digest_of-weighted ys hy),
    λ e. d.digest_of-weighted xs hx ∙ ap (λ (t : ℕ). some t) e ∙ sym (d.digest_of-weighted ys hy),
  )

  same_length :
      (pre xs ys : List ℕ) → length xs ≡ length ys → length (pre ++ xs) ≡ length (pre ++ ys)
  same_length pre xs ys h = omega (arith, h, length-append pre xs, length-append pre ys)

  -- Changing one element keeps the digest just where it keeps that element's term.
  pub edit-digest_iff :
      (pre : List ℕ) (x y : ℕ) (post : List ℕ)
      → d.Accepts (length (pre ++ x ∷ post))
      → (d.digest_of (pre ++ x ∷ post) ≡ d.digest_of (pre ++ y ∷ post))
        ↔ (x * d.weight (length pre) % p ≡ y * d.weight (length pre) % p)
  edit-digest_iff pre x y post h =
      let other = subst d.Accepts (same_length pre (x ∷ post) (y ∷ post) refl) h in
      let same = same_digest_iff (pre ++ x ∷ post) (pre ++ y ∷ post) h other in
      let edit = edit_iff d.weight p pos pre x y post in
      (λ e. edit.0 (same.0 e), λ e. same.1 (edit.1 e))

  -- Exchanging two neighbours keeps the digest just where the two terms keep their sum.
  pub swap-digest_iff :
      (pre : List ℕ) (x y : ℕ) (post : List ℕ)
      → d.Accepts (length (pre ++ x ∷ y ∷ post))
      → (d.digest_of (pre ++ x ∷ y ∷ post) ≡ d.digest_of (pre ++ y ∷ x ∷ post)) ↔ (
          (x * d.weight (length pre) + y * d.weight (suc (length pre))) % p
          ≡ (y * d.weight (length pre) + x * d.weight (suc (length pre))) % p)
  swap-digest_iff pre x y post h =
      let other = subst d.Accepts (same_length pre (x ∷ y ∷ post) (y ∷ x ∷ post) refl) h in
      let same = same_digest_iff (pre ++ x ∷ y ∷ post) (pre ++ y ∷ x ∷ post) h other in
      let swap = swap_iff d.weight p pos pre x y post in
      (λ e. swap.0 (same.0 e), λ e. same.1 (swap.1 e))
