-- ===== src/Power/Exact.antt =====
-- Square and multiply computes the power.
use native.Mathlib.Nat.{
  mod-lt, mod-eq_of_lt, pow-suc, pow-zero, mul-one, one-mul, mul_assoc, mul_comm,
}
use k_sentry.Prelude.{
  ℕ, zero, suc, ◌+◌, ◌*◌, ◌/◌, ◌%◌, ◌^◌, ◌<◌, ◌≡◌, sym, ap, ◌∙◌, ◌≡⟨◌⟩◌, ◌∎, arith, some,
  if◌then◌else◌, ◌==◌, ltb, Bool-cases, inl, inr, true, false,
}
use k_sentry.Prelude.Mod.{mod-mul-mod, mul-mod-pow, pow-add, mul-pow}
use k_sentry.Power.{power_loop}

pub pow-one : (b : ℕ) → b ^ 1 ≡ b
pow-one b = rw (pow-suc b 0, pow-zero, one-mul)

pow-halve : (b e : ℕ) → b ^ e ≡ (b * b) ^ (e / 2) * b ^ (e % 2)
pow-halve b e =
    b ^ e
    ≡⟨ ap (λ (t : ℕ). b ^ t) (omega arith) ⟩ b ^ (e / 2 + e / 2 + e % 2)
    ≡⟨ (simp (pow-add, mul-pow)) ⟩ (b * b) ^ (e / 2) * b ^ (e % 2) ∎

module _ (mul : ℕ → ℕ → ℕ) {p : ℕ} (big : 1 < p)
    (exact : (a b : ℕ) → a < p → b < p → mul a b ≡ a * b % p) where
  -- The factor that a round puts aside for the lowest bit.
  round-factor :
      (r b e : ℕ)
      → r < p
      → b < p
      → ((if e % 2 == 1 then mul r b else r) ≡ r * b ^ (e % 2) % p)
        × ((if e % 2 == 1 then mul r b else r) < p)
  round-factor r b e h hb = elim (Bool-cases (e % 2 == 1)) [
    | inl odd ↦
        rw (odd, exact r b h hb)
          (
            let one : e % 2 ≡ 1 = ground arith in
                rw one (ap (λ (t : ℕ). r * t % p) (sym (pow-one b))),
            mod-lt (r * b) (omega (arith, big)),
          )
    | inr even ↦ rw even (
      let none_left : e % 2 ≡ 0 = ground arith in
          rw (none_left, pow-zero, mul-one) (sym (mod-eq_of_lt h)),
      h,
    )
  ]

  loop_more :
      (n r b e : ℕ)
      → ltb 0 e ≡ true
      → power_loop mul (suc n) r b e
        ≡ power_loop mul n (if e % 2 == 1 then mul r b else r) (mul b b) (e / 2)
  unfolding power_loop
  loop_more n r b e more = rw more

  loop_done : (n r b e : ℕ) → ltb 0 e ≡ false → power_loop mul (suc n) r b e ≡ some r
  unfolding power_loop
  loop_done n r b e done = rw done

  power_loop_over :
      (n r b e : ℕ) → r < p → e ≡ 0 → power_loop mul (suc n) r b e ≡ some (r * b ^ e % p)
  power_loop_over n r b e h over =
      loop_done n r b e (ground arith)
      ∙ ap (λ (t : ℕ). some t) (rw (over, pow-zero, mul-one) (sym (mod-eq_of_lt h)))

  -- One round leaves the value that the loop works out.
  round-value : (r b e : ℕ) → (r * b ^ (e % 2) % p) * (b * b % p) ^ (e / 2) % p ≡ r * b ^ e % p
  round-value r b e =
      mod-mul-mod (r * b ^ (e % 2)) ((b * b % p) ^ (e / 2)) p
      ∙ mul-mod-pow (r * b ^ (e % 2)) (b * b) (e / 2) p
      ∙ ap (λ (t : ℕ). t % p)
          (mul_assoc r _ _ ∙ ap (λ (t : ℕ). r * t) (mul_comm _ _ ∙ sym (pow-halve b e)))

  -- Enough rounds for the bits of the exponent give the power.
  pub power_loop_lem :
      (rounds r b e : ℕ)
      → r < p
      → b < p
      → e < 2 ^ rounds
      → power_loop mul (suc rounds) r b e ≡ some (r * b ^ e % p)
  power_loop_lem zero r b e h hb fuel = power_loop_over zero r b e h (omega arith)
  power_loop_lem (suc rounds) r b e h hb fuel = elim (Bool-cases (ltb 0 e)) [
    | inl more ↦
        let factor = round-factor r b e h hb in
        let square : mul b b < p = rw (exact b b hb hb) (mod-lt (b * b) (omega (arith, big))) in
        let half : e / 2 < 2 ^ rounds = omega (arith, pow-suc 2 rounds) in
        loop_more (suc rounds) r b e more
        ∙ power_loop_lem rounds _ (mul b b) (e / 2) factor.1 square half
        ∙ ap (λ (t : ℕ). some t) (rw (factor.0, exact b b hb hb) (round-value r b e))
    | inr done ↦ power_loop_over (suc rounds) r b e h (ground arith)
  ]
