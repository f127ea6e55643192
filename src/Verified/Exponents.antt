-- ===== src/Verified/Exponents.antt =====
-- proofs/finaltest_timefence_core_verified.rs: sequences of exponents, and when one scalar moves a
-- digest along them. An index that the source quantifies from 0 on is a number, a `Seq` is a list,
-- and an index out of range, which the source does not read, reads 0.
pub mod Affine
pub mod Triangular
pub mod Tests
use k_sentry.Prelude.{ℕ, zero, suc, ◌+◌, ◌≤◌, ◌<◌, ◌≡◌, List, [], ◌∷◌, length, none, some}
use k_sentry.Prelude.Int.{ℤ, pos, ◌+ℤ◌, ◌-ℤ◌, ◌*ℤ◌}
use k_sentry.Verified.Spec.{tri_exp}

-- `phi[i]`
abbrev pub elem : List ℤ → ℕ → ℤ
elem [] i = pos 0
elem (e ∷ phi) zero = e
elem (e ∷ phi) (suc i) = elem phi i

unfoldable pub affine_exp : ℤ → ℤ → ℕ → ℤ
affine_exp a b i = a *ℤ pos i +ℤ b

abbrev pub IsAffineWith : List ℤ → ℤ → ℤ → Type 0
IsAffineWith phi a b = (i : ℕ) → i < length phi → elem phi i ≡ affine_exp a b i

abbrev pub FiniteAffineExponents : List ℤ → Type 0
FiniteAffineExponents phi = (a b : ℤ) × IsAffineWith phi a b

abbrev pub ShiftEquivariantExponents : List ℤ → ℕ → Type 0
ShiftEquivariantExponents phi s =
    (s < length phi)
    × ((i j : ℕ)
        → i + s < length phi
        → j + s < length phi
        → elem phi (i + s) -ℤ elem phi i ≡ elem phi (j + s) -ℤ elem phi j)

abbrev pub OneScalarCompositionExponents : List ℤ → ℕ → Type 0
OneScalarCompositionExponents phi k =
    (k < length phi)
    × ((j l : ℕ)
        → k + j < length phi
        → k + l < length phi
        → elem phi (k + j) -ℤ elem phi j ≡ elem phi (k + l) -ℤ elem phi l)

abbrev pub OneScalarCompositionAllShifts : List ℤ → Type 0
OneScalarCompositionAllShifts phi =
    (k : ℕ) → 1 ≤ k → k < length phi → OneScalarCompositionExponents phi k

abbrev pub TriangularOneScalarRebaseExponentsForShiftO1 : ℕ → Type 0
TriangularOneScalarRebaseExponentsForShiftO1 s =
    (i j : ℕ) → pos (tri_exp (i + s)) -ℤ pos (tri_exp i) ≡ pos (tri_exp (j + s)) -ℤ pos (tri_exp j)
