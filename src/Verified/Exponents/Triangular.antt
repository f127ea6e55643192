-- ===== src/Verified/Exponents/Triangular.antt =====
-- Sequences of exponents of proofs/finaltest_timefence_core_verified.rs: the triangular ones.
use native.Mathlib.Nat.{add-zero}
use k_sentry.Prelude.{
  ℕ, zero, suc, ◌+◌, ◌≤◌, ◌≡◌, ◌↔◌, refl, sym, ap, ◌∙◌, arith, List, [], ◌∷◌, length,
}
use k_sentry.Prelude.Int.{ℤ, pos, pos_part, neg_part, ◌-ℤ◌, -ℤ_parts, eq_of_parts}
use k_sentry.Field.Laws.{tri-suc, tri-zero, tri-one}
use k_sentry.Verified.Spec.{tri_exp}
use k_sentry.Verified.Spec.Exact.{tri_exp-exact}
use k_sentry.Verified.Exponents.{
  FiniteAffineExponents, OneScalarCompositionAllShifts,
  TriangularOneScalarRebaseExponentsForShiftO1,
}
use k_sentry.Verified.Exponents.Affine.{FiniteAffineExponents-composition_iff}

-- The gaps at the indices 0 and 1 differ by the shift.
gaps_differ :
    (s : ℕ)
    → pos (tri_exp (0 + s)) -ℤ pos (tri_exp 0) ≡ pos (tri_exp (1 + s)) -ℤ pos (tri_exp 1)
    → s ≡ 0
gaps_differ s e =
    let first : 0 + s ≡ s = omega arith in
    let second : 1 + s ≡ suc s = omega arith in
    omega (
      arith,
      ap pos_part e,
      ap neg_part e,
      -ℤ_parts (pos (tri_exp (0 + s))) (pos (tri_exp 0)),
      -ℤ_parts (pos (tri_exp (1 + s))) (pos (tri_exp 1)),
      ap tri_exp first,
      ap tri_exp second,
      tri_exp-exact s,
      tri_exp-exact (suc s),
      tri_exp-exact 0,
      tri_exp-exact 1,
      tri-zero,
      tri-one,
      tri-suc s,
    )

gap_zero : (i : ℕ) → pos (tri_exp i) -ℤ pos (tri_exp i) ≡ pos 0
gap_zero i = eq_of_parts _ _ (omega (arith, -ℤ_parts (pos (tri_exp i)) (pos (tri_exp i))))

-- One scalar moves the triangular digest by a shift at all positions only for the shift 0.
pub TriangularOneScalarRebaseExponentsForShiftO1-zero_iff :
    (s : ℕ) → TriangularOneScalarRebaseExponentsForShiftO1 s ↔ (s ≡ 0)
TriangularOneScalarRebaseExponentsForShiftO1-zero_iff s = (
  λ h. gaps_differ s (h 0 1),
  λ e i j. rw (e, add-zero i, add-zero j) (gap_zero i ∙ sym (gap_zero j)),
)

-- The triangular exponents of `n` indices, the first one `i`.
abbrev pub triangular : ℕ → ℕ → List ℤ
triangular i zero = []
triangular i (suc n) = pos (tri_exp i) ∷ triangular (suc i) n

length-triangular : (i n : ℕ) → length (triangular i n) ≡ n
length-triangular i zero = refl
length-triangular i (suc n) = ap suc (length-triangular (suc i) n)

-- Three triangular exponents or more are not affine, and no single scalars compose their digests.
pub triangular-not_composable :
    (n : ℕ)
    → 3 ≤ n
    → (¬ FiniteAffineExponents (triangular 0 n))
      × (¬ OneScalarCompositionAllShifts (triangular 0 n))
triangular-not_composable zero h = absurd (omega arith)
triangular-not_composable (suc zero) h = absurd (omega arith)
triangular-not_composable (suc (suc zero)) h = absurd (omega arith)
triangular-not_composable (suc (suc (suc n))) h =
    let phi = triangular 0 (suc (suc (suc n))) in
    let count : length phi ≡ suc (suc (suc n)) = length-triangular 0 (suc (suc (suc n))) in
    let iff = FiniteAffineExponents-composition_iff phi (omega (arith, count)) in
    let not_affine : ¬ FiniteAffineExponents phi = λ affine.
      let equal = (iff.0.0 affine).1 0 1 (omega (arith, count)) (omega (arith, count)) in
      absurd (omega (arith, gaps_differ 1 equal)) in
    (not_affine, λ all. not_affine (iff.1.1 all))
