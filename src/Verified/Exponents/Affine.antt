-- ===== src/Verified/Exponents/Affine.antt =====
-- Sequences of exponents of proofs/finaltest_timefence_core_verified.rs: the affine ones.
use native.Mathlib.Nat.{mul-suc, mul-add, mul-zero}
use k_sentry.Prelude.{ℕ, zero, suc, ◌+◌, ◌≤◌, ◌<◌, ◌≡◌, ◌↔◌, sym, ap, ◌∙◌, arith, List, length}
use k_sentry.Prelude.Int.{
  ℤ, pos, pos_part, neg_part, ◌+ℤ◌, ◌-ℤ◌, ◌*ℤ◌, +ℤ_parts, -ℤ_parts, *ℤ_parts, eq_of_parts,
}
use k_sentry.Verified.Exponents.{
  elem, affine_exp, IsAffineWith, FiniteAffineExponents, ShiftEquivariantExponents,
  OneScalarCompositionExponents, OneScalarCompositionAllShifts,
}

-- The gap of an affine sequence depends on the shift alone.
affine-gap : (a b : ℤ) (i s : ℕ) → affine_exp a b (i + s) -ℤ affine_exp a b i ≡ a *ℤ pos s
unfolding affine_exp
affine-gap a b i s =
    let up = a *ℤ pos (i + s) in
    let low = a *ℤ pos i in
    eq_of_parts _ _ (
      omega (
        arith,
        -ℤ_parts (up +ℤ b) (low +ℤ b),
        +ℤ_parts up b,
        +ℤ_parts low b,
        *ℤ_parts a (i + s),
        *ℤ_parts a i,
        *ℤ_parts a s,
        mul-add (pos_part a) i s,
        mul-add (neg_part a) i s,
      ))

affine-suc : (a b : ℤ) (i : ℕ) → affine_exp a b (suc i) ≡ affine_exp a b i +ℤ a
unfolding affine_exp
affine-suc a b i =
    let up = a *ℤ pos (suc i) in
    let low = a *ℤ pos i in
    eq_of_parts _ _ (
      omega (
        arith,
        +ℤ_parts (low +ℤ b) a,
        +ℤ_parts up b,
        +ℤ_parts low b,
        *ℤ_parts a (suc i),
        *ℤ_parts a i,
        mul-suc (pos_part a) i,
        mul-suc (neg_part a) i,
      ))

affine-zero : (a b : ℤ) → affine_exp a b 0 ≡ b
unfolding affine_exp
affine-zero a b = eq_of_parts _ _ (
    omega
      (arith, +ℤ_parts (a *ℤ pos 0) b, *ℤ_parts a 0, mul-zero (pos_part a), mul-zero (neg_part a)))

add_back : (x y d : ℤ) → x -ℤ y ≡ d → x ≡ y +ℤ d
add_back x y d e =
    eq_of_parts _ _ (omega (arith, -ℤ_parts x y, +ℤ_parts y d, ap pos_part e, ap neg_part e))

module _ (phi : List ℤ) where
  affine-equivariant :
      (s : ℕ) → FiniteAffineExponents phi → s < length phi → ShiftEquivariantExponents phi s
  affine-equivariant s (a, b, affine) h = (h, λ i j hi hj. gap i hi ∙ sym (gap j hj))
    where
      gap : (i : ℕ) → i + s < length phi → elem phi (i + s) -ℤ elem phi i ≡ a *ℤ pos s
      gap i hi = rw (affine (i + s) hi, affine i (omega arith)) (affine-gap a b i s)

  -- By induction on the index, from the gap at 0.
  elem-affine :
      (h : ShiftEquivariantExponents phi 1)
      → IsAffineWith phi (elem phi 1 -ℤ elem phi 0) (elem phi 0)
  elem-affine h zero hi = sym (affine-zero (elem phi 1 -ℤ elem phi 0) (elem phi 0))
  elem-affine h (suc i) hi =
      let a = elem phi 1 -ℤ elem phi 0 in
      ap (elem phi) (omega arith)
      ∙ add_back (elem phi (i + 1)) (elem phi i) a (h.1 i 0 (omega arith) h.0)
      ∙ ap (λ (e : ℤ). e +ℤ a) (elem-affine h i (omega arith))
      ∙ sym (affine-suc a (elem phi 0) i)

  equivariant-affine : ShiftEquivariantExponents phi 1 → FiniteAffineExponents phi
  equivariant-affine h = (elem phi 1 -ℤ elem phi 0, elem phi 0, elem-affine h)

  composition_equivariant :
      (k : ℕ) → OneScalarCompositionExponents phi k → ShiftEquivariantExponents phi k
  composition_equivariant k (h, equal) = (
    h,
    λ i j hi hj.
        ap (λ (n : ℕ). elem phi n -ℤ elem phi i) (omega arith)
        ∙ equal i j (omega arith) (omega arith)
        ∙ ap (λ (n : ℕ). elem phi n -ℤ elem phi j) (omega arith),
  )

  equivariant_composition :
      (k : ℕ) → ShiftEquivariantExponents phi k → OneScalarCompositionExponents phi k
  equivariant_composition k (h, equal) = (
    h,
    λ j l hj hl.
        ap (λ (n : ℕ). elem phi n -ℤ elem phi j) (omega arith)
        ∙ equal j l (omega arith) (omega arith)
        ∙ ap (λ (n : ℕ). elem phi n -ℤ elem phi l) (omega arith),
  )

  -- For two exponents or more: the sequence is affine exactly when it is equivariant under the shift
  -- by 1, and exactly when one scalar composes the digests at every shift.
  pub FiniteAffineExponents-composition_iff :
      2 ≤ length phi
      → (FiniteAffineExponents phi ↔ ShiftEquivariantExponents phi 1)
        × (FiniteAffineExponents phi ↔ OneScalarCompositionAllShifts phi)
  FiniteAffineExponents-composition_iff h = (
    (λ affine. affine-equivariant 1 affine (omega arith), equivariant-affine),
    (
      λ affine k above hk. equivariant_composition k (affine-equivariant k affine hk),
      λ all. equivariant-affine (composition_equivariant 1 (all 1 (omega arith) (omega arith))),
    ),
  )
