-- ===== src/Antirebase/Offset.antt =====
-- `ksentry_shifted_spec` of timefence-core/src/antirebase.rs is the digest of a chunk at its place
-- in a longer stream, so that chunk digests compose.
use native.Mathlib.Nat.{mod-lt, mod-eq_of_lt, add_assoc, add-zero, zero-add, zero-mod, add-mod}
use native.Mathlib.Numerals.{add-one}
use k_sentry.Prelude.{
  ℕ, suc, ◌+◌, ◌*◌, ◌%◌, ◌^◌, ◌≤◌, ◌<◌, ◌≡◌, sym, ap, ◌∙◌, arith, some, List, [], ◌∷◌, ◌++◌, length,
}
use k_sentry.Prelude.Mod.{mul-mod-mod}
use k_sentry.Weighted.{weighted, weighted-append, powers}
use k_sentry.Field.{u64, u128, mod_mul, mod_add, mod_pow, Fits}
use k_sentry.Field
use k_sentry.Field.Laws.{mod_mul-exact, tri, tri-lt, triangular_exp-exact}
use k_sentry.Field.Pow.{mod_pow-exact}
use k_sentry.KSentry.{digest_of}
use k_sentry.KSentry.Exact.{tri_sum, digest_of-exact}
use k_sentry.Antirebase.{triangular_exp, shifted_loop, ksentry_shifted_spec}

-- The copy of `triangular_exp` is exact too.
copy-exact : (i : ℕ) → i < 2 ^ 64 → triangular_exp i ≡ tri i
unfolding triangular_exp
copy-exact i h = unfold Field.triangular_exp in triangular_exp-exact i h

module _ {p : ℕ} (fits : Fits p) (q : ℕ) where
  shifted-term : (total x w : ℕ) → u128 (total % p + mod_mul x (w % p) p) % p ≡ (total + x * w) % p
  shifted-term total x w =
      let pos : 0 < p = omega (arith, fits.above_one) in
      let sum-lt : total % p + x * w % p < 2 ^ 128 =
        omega (arith, fits.within_u64, mod-lt total pos, mod-lt (x * w) pos) in
      rw (mod_mul-exact fits x (w % p), mul-mod-mod x w p, mod-eq_of_lt sum-lt)
        (sym (add-mod total (x * w) p))

  shifted_loop-exact :
      (shift i total : ℕ) (xs : List ℕ)
      → i + shift + length xs ≤ 2 ^ 64
      → shifted_loop q p shift i (total % p) xs ≡ some ((total + tri_sum q (i + shift) xs) % p)
  unfolding shifted_loop weighted
  shifted_loop-exact shift i total [] h = rw add-zero
  shifted_loop-exact shift i total (x ∷ xs) h =
      let small : i + shift < 2 ^ 64 = omega (arith, h) in
      let exponent : triangular_exp (u64 (u64 i + shift)) ≡ tri (i + shift) =
        ap triangular_exp (omega arith) ∙ copy-exact (i + shift) small in
      let next : suc (i + shift) ≡ suc i + shift = omega arith in
      rw
        (
          exponent,
          mod_pow-exact fits q (tri (i + shift)) (tri-lt (i + shift) small),
          shifted-term total x (q ^ tri (i + shift)),
          add-one,
          next,
          ← add_assoc,
        )
        (shifted_loop-exact shift (suc i) (total + x * q ^ tri (i + shift)) xs (omega (arith, h)))

  pub ksentry_shifted_spec-exact :
      (shift : ℕ) (xs : List ℕ)
      → shift + length xs ≤ 2 ^ 64
      → ksentry_shifted_spec xs q p shift ≡ some (tri_sum q shift xs % p)
  unfolding ksentry_shifted_spec
  ksentry_shifted_spec-exact shift xs h =
      simp zero-add at (rw (zero-mod p) at (shifted_loop-exact shift 0 0 xs (omega (arith, h))))

  -- For a modulus of at most 2 ^ 64, a base that is not 0 and at most 2 ^ 64 elements in all, the
  -- digest of a stream is the sum modulo `p` of the digest of its first part and of the shifted
  -- digest of the rest, at the offset at which the rest stands; all three return.
  pub digest_of-append :
      (xs ys : List ℕ)
      → 0 < q
      → length xs + length ys ≤ 2 ^ 64
      → (a b : ℕ) × (digest_of xs q p ≡ some a)
        × (ksentry_shifted_spec ys q p (length xs) ≡ some b)
        × (digest_of (xs ++ ys) q p ≡ some ((a + b) % p))
  digest_of-append xs ys hq h = (
    tri_sum q 0 xs % p,
    tri_sum q (length xs) ys % p,
    digest_of-exact fits q xs hq,
    ksentry_shifted_spec-exact (length xs) ys h,
    digest_of-exact fits q (xs ++ ys) hq
        ∙ ap (λ (t : ℕ). some t)
            (ap (λ (t : ℕ). t % p) (rw zero-add at (weighted-append (powers tri q) 0 xs ys))
              ∙ add-mod (tri_sum q 0 xs) (tri_sum q (length xs) ys) p),
  )
