-- ===== src/Weighted/Edits.antt =====
-- What a change of a stream does to its abstract digest modulo `p`.
use native.Mathlib.Nat.{add_assoc, zero-add}
use k_sentry.Prelude.{
  ℕ, suc, ◌+◌, ◌*◌, ◌%◌, ◌<◌, ◌≡◌, ◌↔◌, sym, ap, ◌∙◌, arith, List, ◌∷◌, ◌++◌, length,
}
use k_sentry.Prelude.Mod.{add-mod_cancel, add-mod_congr}
use k_sentry.Weighted.{weighted, weighted-append}

module _ (weight : ℕ → ℕ) (p : ℕ) (pos : 0 < p) where
  -- Sums that differ in one summand agree modulo `p` just where the summands do.
  pub middle_iff : (a b c d : ℕ) → ((c + (a + d)) % p ≡ (c + (b + d)) % p) ↔ (a % p ≡ b % p)
  middle_iff a b c d = (
    λ e. add-mod_cancel a b (c + d) p pos (regroup a ∙ e ∙ sym (regroup b)),
    λ e. sym (regroup a) ∙ add-mod_congr a b (c + d) p e ∙ regroup b,
  )
    where
      regroup : (t : ℕ) → (t + (c + d)) % p ≡ (c + (t + d)) % p
      regroup t = ap (λ (n : ℕ). n % p) (omega arith)

  -- Changing one element keeps the digest just where it keeps that element's term.
  pub edit_iff :
      (pre : List ℕ) (x y : ℕ) (post : List ℕ)
      → (weighted weight 0 (pre ++ x ∷ post) % p ≡ weighted weight 0 (pre ++ y ∷ post) % p)
        ↔ (x * weight (length pre) % p ≡ y * weight (length pre) % p)
  unfolding weighted
  edit_iff pre x y post =
      rw
        (weighted-append weight 0 pre (x ∷ post), weighted-append weight 0 pre (y ∷ post), zero-add)
        (middle_iff (x * weight (length pre)) (y * weight (length pre)) _ _)

  -- Exchanging two neighbours keeps the digest just where the two terms keep their sum.
  pub swap_iff :
      (pre : List ℕ) (x y : ℕ) (post : List ℕ)
      → (weighted weight 0 (pre ++ x ∷ y ∷ post) % p ≡ weighted weight 0 (pre ++ y ∷ x ∷ post) % p)
        ↔ ((x * weight (length pre) + y * weight (suc (length pre))) % p
            ≡ (y * weight (length pre) + x * weight (suc (length pre))) % p)
  unfolding weighted
  swap_iff pre x y post =
      rw
        (
          weighted-append weight 0 pre (x ∷ y ∷ post),
          weighted-append weight 0 pre (y ∷ x ∷ post),
          zero-add,
          ← add_assoc (x * weight (length pre)) (y * weight (suc (length pre))) _,
          ← add_assoc (y * weight (length pre)) (x * weight (suc (length pre))) _,
        )
        (middle_iff _ _ _ _)
