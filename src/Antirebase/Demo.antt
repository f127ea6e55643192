-- ===== src/Antirebase/Demo.antt =====
-- When the demonstration of timefence-core/src/antirebase.rs succeeds, and why it must.
use native.Mathlib.Nat.{
  mod-eq_of_lt, one-mul, zero-mul, pow-zero, pow-suc, add-zero, zero-add, mul_comm,
}
use k_sentry.Prelude.{
  ℕ, suc, ◌+◌, ◌*◌, ◌%◌, ◌^◌, ◌≤◌, ◌<◌, ◌≡◌, sym, ap, ◌∙◌, arith, some, not, ◌==◌,
}
use k_sentry.Prelude.Mod.{mod-mul-mod, mul-mod-mod, mul-mod_cancel, pow-inverse, pow-add}
use k_sentry.Weighted.{weighted}
use k_sentry.Field.{mod_mul, Fits}
use k_sentry.Field.Laws.{mod_mul-exact, tri, tri-zero, tri-one, tri-suc}
use k_sentry.Field.Pow.{mod_pow-exact}
use k_sentry.Power.Exact.{pow-one}
use k_sentry.KSentry.{digest_of}
use k_sentry.KSentry.Exact.{tri_sum, digest_of-exact}
use k_sentry.Antirebase.{
  ksentry_shifted_spec, fake_scalar_rebase, chunk_a, chunk_b, demo_ksentry_not_one_scalar_rebase,
}
use k_sentry.Antirebase.Offset.{ksentry_shifted_spec-exact}

-- The sums of the two one-hot chunks.
sum_a : (q s : ℕ) → tri_sum q s chunk_a ≡ q ^ tri s
unfolding weighted
sum_a q s = simp (one-mul, zero-mul, add-zero)

sum_b : (q s : ℕ) → tri_sum q s chunk_b ≡ q ^ tri s * q ^ suc s
unfolding weighted
sum_b q s = simp (one-mul, zero-mul, add-zero, zero-add, tri-suc, pow-add)

module _ {p : ℕ} (fits : Fits p) (q : ℕ) (hq : 0 < q) where
  local_a-exact : digest_of chunk_a q p ≡ some 1
  local_a-exact =
      digest_of-exact fits q chunk_a hq
      ∙ ap (λ (t : ℕ). some t) (rw (sum_a, tri-zero, pow-zero) (mod-eq_of_lt fits.above_one))

  local_b-exact : digest_of chunk_b q p ≡ some (q % p)
  local_b-exact =
      digest_of-exact fits q chunk_b hq
      ∙ ap (λ (t : ℕ). some (t % p)) (rw (sum_b, tri-zero, pow-zero, one-mul) (pow-one q))

  shifted_a-exact :
      (s : ℕ) → s + 2 ≤ 2 ^ 64 → ksentry_shifted_spec chunk_a q p s ≡ some (q ^ tri s % p)
  shifted_a-exact s h = ksentry_shifted_spec-exact fits q s chunk_a h ∙ rw sum_a

  shifted_b-exact :
      (s : ℕ)
      → s + 2 ≤ 2 ^ 64
      → ksentry_shifted_spec chunk_b q p s ≡ some (q ^ tri s * q ^ suc s % p)
  shifted_b-exact s h = ksentry_shifted_spec-exact fits q s chunk_b h ∙ rw sum_b

  fake-exact : (d : ℕ) → fake_scalar_rebase d q p 1 ≡ some (d * q % p)
  unfolding fake_scalar_rebase
  fake-exact d =
      rw (mod_pow-exact fits q 1 (omega arith), pow-one)
        (ap (λ (t : ℕ). some t) (mod_mul-exact fits d (q % p) ∙ mul-mod-mod d q p))

  -- For a modulus of at most 2 ^ 64 and a base that is not 0 the demonstration returns, and its
  -- answer is whether q ^ 2 and q ^ 3 differ modulo `p`.
  pub demo_ksentry_not_one_scalar_rebase-exact :
      demo_ksentry_not_one_scalar_rebase q p ≡ some (not (q ^ 2 % p == q ^ 3 % p))
  unfolding demo_ksentry_not_one_scalar_rebase
  demo_ksentry_not_one_scalar_rebase-exact =
      rw
        (
          local_a-exact,
          local_b-exact,
          shifted_a-exact 1 (omega arith),
          shifted_b-exact 1 (omega arith),
          fake-exact 1,
          fake-exact (q % p),
          tri-one,
          pow-one,
          one-mul,
          mod-mul-mod q q p,
          ← square,
          ← cube,
        )
        (ground arith)
    where
      square : q ^ 2 ≡ q * q
      square = pow-suc q 1 ∙ ap (λ (t : ℕ). t * q) (pow-one q)

      cube : q ^ 3 ≡ q * q ^ 2
      cube = pow-suc q 2 ∙ mul_comm _ _

  -- For a modulus of 2 to 2 ^ 64, a base that is not 0 and has an inverse modulo `p`, and an offset
  -- of at most 2 ^ 64 - 2, no scalar at all moves the digests of both one-hot chunks to the offset,
  -- unless q ^ shift is 1 modulo `p`. At the offset 2 ^ 64 - 1 the index of the second element wraps
  -- around.
  pub no_scalar_rebase :
      (r shift scalar a b a' b' : ℕ)
      → q * r % p ≡ 1
      → shift + 2 ≤ 2 ^ 64
      → digest_of chunk_a q p ≡ some a
      → digest_of chunk_b q p ≡ some b
      → ksentry_shifted_spec chunk_a q p shift ≡ some a'
      → ksentry_shifted_spec chunk_b q p shift ≡ some b'
      → mod_mul a scalar p ≡ a'
      → mod_mul b scalar p ≡ b'
      → q ^ shift % p ≡ 1
  no_scalar_rebase r shift scalar a b a' b' inverse h ea eb ea' eb' moves_a moves_b =
      sym (
        mul-mod_cancel 1 (q ^ shift) (q ^ suc (tri shift)) (r ^ suc (tri shift)) p
          (pow-inverse q r (suc (tri shift)) p fits.above_one inverse) (sym moved_back))
      ∙ mod-eq_of_lt fits.above_one
    where
      moved_a : scalar % p ≡ q ^ tri shift % p
      moved_a =
          let ha : a ≡ 1 = cc local_a-exact in
          let ha' : a' ≡ q ^ tri shift % p = cc (shifted_a-exact shift h) in
          ap (λ (t : ℕ). t % p) (sym (one-mul scalar))
          ∙ sym (mod_mul-exact fits 1 scalar)
          ∙ ap (λ (t : ℕ). mod_mul t scalar p) (sym ha)
          ∙ moves_a
          ∙ ha'

      moved_b : q * scalar % p ≡ q ^ tri shift * q ^ suc shift % p
      moved_b =
          let hb : b ≡ q % p = cc local_b-exact in
          let hb' : b' ≡ q ^ tri shift * q ^ suc shift % p = cc (shifted_b-exact shift h) in
          sym (mod-mul-mod q scalar p)
          ∙ sym (mod_mul-exact fits (q % p) scalar)
          ∙ ap (λ (t : ℕ). mod_mul t scalar p) (sym hb)
          ∙ moves_b
          ∙ hb'

      moved_back : q ^ shift * q ^ suc (tri shift) % p ≡ 1 * q ^ suc (tri shift) % p
      moved_back =
          ap (λ (t : ℕ). t % p) (simp pow-suc (omega arith))
          ∙ sym moved_b
          ∙ sym (mul-mod-mod q scalar p)
          ∙ ap (λ (t : ℕ). q * t % p) moved_a
          ∙ mul-mod-mod q (q ^ tri shift) p
          ∙ ap (λ (t : ℕ). t % p) (simp (pow-suc, one-mul) (mul_comm _ _))
