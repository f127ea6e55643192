-- ===== src/Verified/Difference/Exact.antt =====
-- The difference polynomial of proofs/finaltest_timefence_core_verified.rs with its coefficients
-- against the difference of the digests.
use native.Mathlib.Nat.{
  mod-lt, mod-mod, mod-eq_of_lt, add-mod-mod, mod-add-mod, add-mod_right, add-mul, mod_self,
}
use native.Mathlib.Decide.{ℕ_discrete}
use k_sentry.Prelude.{
  ℕ, zero, suc, ◌+◌, ◌-◌, ◌*◌, ◌%◌, ◌≤◌, ◌<◌, ◌≡◌, ◌≢◌, ◌↔◌, refl, sym, ap, ap₂, ◌∙◌, arith, List,
  [], ◌∷◌, length, take-length_le, not, ◌||◌, leb, ◌==◌, lt→ltb, Bool-cases, ◌⊎◌, inl, inr,
}
use k_sentry.Prelude.Int.{
  ℤ, pos, negsuc, pos_part, neg_part, ◌+ℤ◌, ◌-ℤ◌, ◌*ℤ◌, +ℤ_parts, -ℤ_parts, *ℤ_parts, eq_of_parts,
}
use k_sentry.Prelude.Mod.{add-mod_congr, add-mod_cancel, mul-mod-mod}
use k_sentry.Verified.Spec.{ramanujan_spec, spec_pow, tri_exp}
use k_sentry.Verified.Prefix.{elem, ks_prefix_spec}
use k_sentry.Verified.Prefix.Simulates.{ks_prefix_spec-ramanujan_spec}
use k_sentry.Verified.Collision.{diff_poly_eval_mod}
use k_sentry.Verified.Difference.{
  mod_ℤ, diff_coeff_at, ExistsNonzeroDiffCoeff, diff_poly_sum_mod, diff_poly_sum_full,
}

-- Below both lengths a coefficient is the difference of the elements.
coeff_inside :
    (w w2 : List ℕ) (i : ℕ)
    → i < length w
    → i < length w2
    → diff_coeff_at w w2 i ≡ pos (elem w i) -ℤ pos (elem w2 i)
unfolding diff_coeff_at
coeff_inside w w2 i h h2 = rw (lt→ltb i (length w) h, lt→ltb i (length w2) h2) refl

module _ (p : ℕ) (above : 1 < p) where
  -- The remainder is the integer modulo `p`, and is reduced.
  mod_ℤ_parts : (z : ℤ) → (mod_ℤ z p + neg_part z) % p ≡ pos_part z % p
  unfolding mod_ℤ
  mod_ℤ_parts (pos n) = rw (mod-add-mod n p 0) (ap (λ (t : ℕ). t % p) (omega arith))
  mod_ℤ_parts (negsuc n) =
      let r = suc n % p in
      let small : r < p = mod-lt (suc n) (omega arith) in
      mod-add-mod (p - r) p (suc n)
      ∙ sym (add-mod-mod (p - r) (suc n) p)
      ∙ ap (λ (t : ℕ). t % p) (omega (arith, small))
      ∙ mod_self p
      ∙ sym (mod-eq_of_lt (omega arith))

  mod_ℤ-lt : (z : ℤ) → mod_ℤ z p < p
  unfolding mod_ℤ
  mod_ℤ-lt (pos n) = mod-lt n (omega arith)
  mod_ℤ-lt (negsuc n) = mod-lt (p - suc n % p) (omega arith)

  -- One coefficient with its weight `v`, added to the sum so far.
  next_parts :
      (rest x y v : ℕ)
      → let z = pos rest +ℤ (pos x -ℤ pos y) *ℤ pos v in
        pos_part z + y * v ≡ neg_part z + rest + x * v
  next_parts rest x y v =
      let c = pos x -ℤ pos y in
      omega (arith, +ℤ_parts (pos rest) (c *ℤ pos v), *ℤ_parts c v, scaled)
    where
      scaled : pos_part (pos x -ℤ pos y) * v + y * v ≡ neg_part (pos x -ℤ pos y) * v + x * v
      scaled =
          let d = pos x -ℤ pos y in
          let parts : pos_part d + y ≡ neg_part d + x = omega (arith, -ℤ_parts (pos x) (pos y)) in
          sym (add-mul (pos_part d) y v) ∙ ap (λ (t : ℕ). t * v) parts ∙ add-mul (neg_part d) x v

  -- The invariant after `k` coefficients: the sum added to the one digest gives the other.
  step :
      (rest k1 k2 x y weight : ℕ)
      → (rest + k2) % p ≡ k1 % p
      → let z = pos rest +ℤ (pos x -ℤ pos y) *ℤ pos (weight % p) in
        (mod_ℤ z p + (k2 + y * weight % p) % p) % p ≡ (k1 + x * weight % p) % p
  step rest k1 k2 x y weight h =
      let v = weight % p in
      let z = pos rest +ℤ (pos x -ℤ pos y) *ℤ pos v in
      let m = mod_ℤ z p in
      let pz = pos_part z in
      let nz = neg_part z in
      let parts = next_parts rest x y v in
      add-mod-mod m (k2 + y * weight % p) p
      ∙ ap (λ (t : ℕ). (m + (k2 + t)) % p) (sym (mul-mod-mod y weight p))
      ∙ spread m k2 (y * v)
      ∙ add-mod_cancel (m + (k2 + y * v)) (k1 + x * v) nz p (omega arith) (
          ap (λ (t : ℕ). t % p) (omega arith)
          ∙ add-mod_congr (m + nz) pz (k2 + y * v) p (mod_ℤ_parts z)
          ∙ ap (λ (t : ℕ). t % p) (omega (arith, parts))
          ∙ add-mod_congr (rest + k2) k1 (x * v + nz) p h
          ∙ ap (λ (t : ℕ). t % p) (omega arith))
      ∙ sym (add-mod-mod k1 (x * v) p)
      ∙ ap (λ (t : ℕ). (k1 + t) % p) (mul-mod-mod x weight p)
    where
      spread : (a b c : ℕ) → (a + (b + c % p)) % p ≡ (a + (b + c)) % p
      spread a b c =
          sym (add-mod-mod a (b + c % p) p)
          ∙ ap (λ (t : ℕ). (a + t) % p) (add-mod-mod b c p)
          ∙ add-mod-mod a (b + c) p

  module _ (w w2 : List ℕ) (q : ℕ) (same : length w ≡ length w2) where
    diff_poly_sum_mod-prefix :
        (k : ℕ)
        → k ≤ length w
        → (diff_poly_sum_mod w w2 q p k + ks_prefix_spec w2 q p k) % p ≡ ks_prefix_spec w q p k % p
    unfolding diff_poly_sum_mod ks_prefix_spec
    diff_poly_sum_mod-prefix zero h = refl
    diff_poly_sum_mod-prefix (suc k) h = rw (coeff_inside w w2 k (omega arith) (omega arith)) (
        step (diff_poly_sum_mod w w2 q p k) (ks_prefix_spec w q p k) (ks_prefix_spec w2 q p k)
          (elem w k) (elem w2 k) (spec_pow q (tri_exp k)) (diff_poly_sum_mod-prefix k (omega arith))
        ∙ sym (mod-mod (ks_prefix_spec w q p k + elem w k * spec_pow q (tri_exp k) % p) p))

    diff_poly_sum_mod-lt : (k : ℕ) → diff_poly_sum_mod w w2 q p k < p
    unfolding diff_poly_sum_mod
    diff_poly_sum_mod-lt zero = omega arith
    diff_poly_sum_mod-lt (suc k) = mod_ℤ-lt _

    ks_prefix_spec-lt : (xs : List ℕ) (k : ℕ) → ks_prefix_spec xs q p k < p
    unfolding ks_prefix_spec
    ks_prefix_spec-lt xs zero = omega arith
    ks_prefix_spec-lt xs (suc k) = mod-lt _ (omega arith)

    whole : (xs : List ℕ) → ks_prefix_spec xs q p (length xs) ≡ ramanujan_spec xs q p
    whole xs =
        ks_prefix_spec-ramanujan_spec xs q p (length xs) (omega arith)
        ∙ ap (λ (l : List ℕ). ramanujan_spec l q p) (take-length_le (length xs) xs (omega arith))

    sum-eval :
        diff_poly_sum_mod w w2 q p (length w)
        ≡ (ramanujan_spec w q p + p - ramanujan_spec w2 q p) % p
    sum-eval =
        let n = length w in
        let total = diff_poly_sum_mod w w2 q p n in
        let k1 = ks_prefix_spec w q p n in
        let k2 = ks_prefix_spec w2 q p n in
        let small1 : k1 < p = ks_prefix_spec-lt w n in
        let small2 : k2 < p = ks_prefix_spec-lt w2 n in
        let first : k1 ≡ ramanujan_spec w q p = whole w in
        let second : k2 ≡ ramanujan_spec w2 q p = ap (ks_prefix_spec w2 q p) same ∙ whole w2 in
        let value = k1 + p - k2 in
        let up : value + k2 ≡ k1 + p = omega (arith, small2) in
        let around : (k1 + p) % p ≡ k1 % p = add-mod_right k1 p in
        let cancelled : total % p ≡ value % p =
          add-mod_cancel total value k2 p (omega arith)
            (diff_poly_sum_mod-prefix n (omega arith) ∙ sym (ap (λ (t : ℕ). t % p) up ∙ around)) in
        sym (mod-eq_of_lt (diff_poly_sum_mod-lt n))
        ∙ cancelled
        ∙ ap (λ (t : ℕ). (t + p - k2) % p) first
        ∙ ap (λ (t : ℕ). (ramanujan_spec w q p + p - t) % p) second

-- For every modulus, base and pair of traces the sum of the coefficients' terms is the value of the
-- source's difference polynomial, which is the difference of the two digests modulo `p` where the
-- traces have one length and the modulus is above 1; both are 0 elsewhere by definition.
pub diff_poly_sum_full-eval :
    (w w2 : List ℕ) (q p : ℕ) → diff_poly_sum_full w w2 q p ≡ diff_poly_eval_mod w w2 q p
unfolding diff_poly_sum_full diff_poly_eval_mod
diff_poly_sum_full-eval w w2 q p = elim (Bool-cases (not (length w == length w2) || leb p 1)) [
  | inl empty ↦ rw empty refl
  | inr full ↦ rw full (sum-eval p (ground (arith, full)) w w2 q (ground (arith, full)))
]

-- Two lists of one length are the same, or there is an index at which they differ.
first_difference :
    (w w2 : List ℕ)
    → length w ≡ length w2
    → (w ≡ w2) ⊎ ((i : ℕ) × (i < length w) × (elem w i ≢ elem w2 i))
first_difference [] [] same = inl refl
first_difference [] (y ∷ w2) same = absurd (omega arith)
first_difference (x ∷ w) [] same = absurd (omega arith)
first_difference (x ∷ w) (y ∷ w2) same = elim (ℕ_discrete x y) [
  | yes e ↦ elim (first_difference w w2 (omega arith)) [
    | inl rest ↦ inl (ap₂ (λ t ts. t ∷ ts) e rest)
    | inr found ↦ inr (suc found.0, omega (arith, found.1), found.2)
  ]
  | no other ↦ inr (0, omega arith, other)
]

difference_zero : (x y : ℕ) → pos x -ℤ pos y ≡ pos 0 → x ≡ y
difference_zero x y e = omega (arith, -ℤ_parts (pos x) (pos y), ap pos_part e, ap neg_part e)

difference_self : (x : ℕ) → pos x -ℤ pos x ≡ pos 0
difference_self x = eq_of_parts _ _ (omega (arith, -ℤ_parts (pos x) (pos x)))

-- Two traces of one length have a coefficient that is not 0 exactly when they differ.
pub ExistsNonzeroDiffCoeff-differ_iff :
    (w w2 : List ℕ) → length w ≡ length w2 → ExistsNonzeroDiffCoeff w w2 ↔ (w ≢ w2)
ExistsNonzeroDiffCoeff-differ_iff w w2 same = (
  λ (i, h, h2, nonzero) e. nonzero (
      coeff_inside w w2 i h h2
      ∙ ap (λ (l : List ℕ). pos (elem w i) -ℤ pos (elem l i)) (sym e)
      ∙ difference_self (elem w i)),
  λ differ. elim (first_difference w w2 same) [
    | inl equal ↦ absurd (differ equal)
    | inr (i, h, other) ↦ (
      i,
      h,
      omega arith,
      λ e. other (difference_zero _ _ (sym (coeff_inside w w2 i h (omega arith)) ∙ e)),
    )
  ],
)
