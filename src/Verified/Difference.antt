-- ===== src/Verified/Difference.antt =====
-- proofs/finaltest_timefence_core_verified.rs: the difference polynomial of two traces with its
-- coefficients, which are integers. The remainder of an integer is never negative.
pub mod Exact
pub mod Tests
use k_sentry.Prelude.{
  ℕ, zero, suc, ◌+◌, ◌-◌, ◌%◌, ◌<◌, ◌≡◌, ◌≢◌, List, length, not, ◌&&◌, ◌||◌, ltb, leb, ◌==◌,
  if◌then◌else◌,
}
use k_sentry.Prelude.Int.{ℤ, pos, negsuc, ◌+ℤ◌, ◌-ℤ◌, ◌*ℤ◌}
use k_sentry.Verified.Spec.{spec_pow, tri_exp}
use k_sentry.Verified.Prefix.{elem}

-- `z % p`
unfoldable pub mod_ℤ : ℤ → ℕ → ℕ
mod_ℤ (pos n) p = n % p
mod_ℤ (negsuc n) p = (p - suc n % p) % p

-- The index is never negative.
unfoldable pub diff_coeff_at : List ℕ → List ℕ → ℕ → ℤ
diff_coeff_at w w2 i =
    if ltb i (length w) && ltb i (length w2) then pos (elem w i) -ℤ pos (elem w2 i) else pos 0

abbrev pub ExistsNonzeroDiffCoeff : List ℕ → List ℕ → Type 0
ExistsNonzeroDiffCoeff w w2 =
    (i : ℕ) × (i < length w) × (i < length w2) × (diff_coeff_at w w2 i ≢ pos 0)

unfoldable pub diff_poly_sum_mod : List ℕ → List ℕ → ℕ → ℕ → ℕ → ℕ
diff_poly_sum_mod w w2 q p zero = 0
diff_poly_sum_mod w w2 q p (suc i) =
    let rest = diff_poly_sum_mod w w2 q p i in
    mod_ℤ (pos rest +ℤ diff_coeff_at w w2 i *ℤ pos (spec_pow q (tri_exp i) % p)) p

unfoldable pub diff_poly_sum_full : List ℕ → List ℕ → ℕ → ℕ → ℕ
diff_poly_sum_full w w2 q p =
    if not (length w == length w2) || leb p 1 then 0 else diff_poly_sum_mod w w2 q p (length w)
