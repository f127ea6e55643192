-- ===== src/Verified/Exponents/Tests.antt =====
-- Runs of the exponent sequences of proofs/finaltest_timefence_core_verified.rs, and instances.
use k_sentry.Prelude.{ℕ, ◌≡◌, ◌↔◌, refl, arith, [], ◌∷◌}
use k_sentry.Prelude.Int.{pos, negsuc, ◌+ℤ◌, ◌*ℤ◌}
use k_sentry.Verified.Exponents.{
  affine_exp, FiniteAffineExponents, ShiftEquivariantExponents, OneScalarCompositionAllShifts,
  TriangularOneScalarRebaseExponentsForShiftO1,
}
use k_sentry.Verified.Exponents.Affine.{FiniteAffineExponents-composition_iff}
use k_sentry.Verified.Exponents.Triangular.{
  triangular, triangular-not_composable, TriangularOneScalarRebaseExponentsForShiftO1-zero_iff,
}

-- -2 * 3 + 5 = -1.
affine_run : affine_exp (negsuc 1) (pos 5) 3 ≡ negsuc 0
unfolding affine_exp ◌+ℤ◌ ◌*ℤ◌
affine_run = refl

FiniteAffineExponents-composition_iff_example :
    (FiniteAffineExponents (pos 5 ∷ pos 2 ∷ negsuc 0 ∷ [])
      ↔ ShiftEquivariantExponents (pos 5 ∷ pos 2 ∷ negsuc 0 ∷ []) 1)
    × (FiniteAffineExponents (pos 5 ∷ pos 2 ∷ negsuc 0 ∷ [])
        ↔ OneScalarCompositionAllShifts (pos 5 ∷ pos 2 ∷ negsuc 0 ∷ []))
FiniteAffineExponents-composition_iff_example =
    FiniteAffineExponents-composition_iff (pos 5 ∷ pos 2 ∷ negsuc 0 ∷ []) (omega arith)

triangular_not_composable_run :
    (¬ FiniteAffineExponents (triangular 0 3)) × (¬ OneScalarCompositionAllShifts (triangular 0 3))
triangular_not_composable_run = triangular-not_composable 3 (omega arith)

TriangularOneScalarRebaseExponentsForShiftO1-zero_iff_run :
    TriangularOneScalarRebaseExponentsForShiftO1 2 ↔ (◌≡◌ {A = ℕ} 2 0)
TriangularOneScalarRebaseExponentsForShiftO1-zero_iff_run =
    TriangularOneScalarRebaseExponentsForShiftO1-zero_iff 2
