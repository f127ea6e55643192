-- ===== src/Metrics/Arith/Exact.antt =====
-- On reduced operands the `u64` arithmetic of ksentry-metrics/src/main.rs is exact.
use native.Mathlib.Nat.{mod-lt, mod-eq_of_lt, mod-eq-sub-mod, mul-le-mul, one-mul}
use k_sentry.Prelude.{
  ℕ, ◌+◌, ◌-◌, ◌*◌, ◌%◌, ◌^◌, ◌≤◌, ◌<◌, ◌≡◌, ap, ◌∙◌, arith, some, leb, Bool-cases, inl, inr,
}
use k_sentry.Prelude.Mod.{mul-mod-pow}
use k_sentry.Power.Exact.{power_loop_lem}
use k_sentry.Metrics.Arith.{sub_u64, add_mod_u64, mul_mod_u64, pow_mod_u64}

-- A modulus that the constructor accepts and that is a `u64`.
pub record IsModulus (p : ℕ) : Type 0 where
  pub above_one : 1 < p
  pub is_u64 : p < 2 ^ 64

below_square : (m a b : ℕ) → a ≤ m → b ≤ m → a * b ≤ m * m
below_square m a b ha hb = mul-le-mul ha hb

module _ {p : ℕ} (m : IsModulus p) where
  -- Modular addition without overflow, although a + b may be no `u64`.
  pub add_mod_u64-exact : (a b : ℕ) → a < p → b < p → add_mod_u64 a b p ≡ (a + b) % p
  unfolding add_mod_u64
  add_mod_u64-exact a b ha hb =
      let t : sub_u64 p b ≡ p - b = omega (arith, m.is_u64) in
      elim (Bool-cases (leb (p - b) a)) [
        | inl wraps ↦
            let over : p ≤ a + b = ground arith in
            rw (t, wraps)
              (omega (
                arith,
                m.is_u64,
                mod-eq-sub-mod over,
                mod-eq_of_lt {n = a + b - p} {m = p} (omega arith),
              ))
        | inr plain ↦
            let under : a + b < p = ground arith in
            rw (t, plain) (omega (arith, m.is_u64, mod-eq_of_lt under))
      ]

  pub mul_mod_u64-exact : (a b : ℕ) → a < p → b < p → mul_mod_u64 a b p ≡ a * b % p
  unfolding mul_mod_u64
  mul_mod_u64-exact a b ha hb =
      let product : a * b ≤ (2 ^ 64 - 1) * (2 ^ 64 - 1) =
        below_square (2 ^ 64 - 1) a b (omega (arith, m.is_u64)) (omega (arith, m.is_u64)) in
      let fits : a * b < 2 ^ 128 = omega (arith, product) in
      let reduced : a * b % p < p = mod-lt (a * b) (omega (arith, m.above_one)) in
      rw (mod-eq_of_lt fits) (mod-eq_of_lt (omega (arith, m.is_u64, reduced)))

  -- For every `u64` exponent the loop ends with the power.
  pub pow_mod_u64-exact :
      (base exp : ℕ) → exp < 2 ^ 64 → pow_mod_u64 base exp p ≡ some (base ^ exp % p)
  unfolding pow_mod_u64
  pow_mod_u64-exact base exp h =
      let pos : 0 < p = omega (arith, m.above_one) in
      rw (mod-eq_of_lt m.above_one) (
        power_loop_lem (λ a b. mul_mod_u64 a b p) m.above_one mul_mod_u64-exact 64 1 (base % p) exp
          m.above_one (mod-lt base pos) h
        ∙ ap (λ (t : ℕ). some t)
            (mul-mod-pow 1 base exp p ∙ ap (λ (t : ℕ). t % p) (one-mul (base ^ exp))))
