-- ===== src/Field/Pow.antt =====
-- `mod_pow` of timefence-core/src/ksentry.rs computes the power.
use native.Mathlib.Nat.{mod-lt, one-mul}
use k_sentry.Prelude.{ℕ, ◌%◌, ◌^◌, ◌<◌, ◌≡◌, ap, ◌∙◌, arith, some, lt→ltb}
use k_sentry.Prelude.Mod.{mul-mod-pow}
use k_sentry.Power.Exact.{power_loop_lem}
use k_sentry.Field.{pow_loop, mod_pow, mod_mul, Fits}
use k_sentry.Field.Laws.{mod_mul-exact}

module _ {p : ℕ} (fits : Fits p) where
  -- For a modulus of 2 to 2 ^ 64 and every exponent of 128 bits the loop ends, and the result is
  -- the power modulo `p`.
  pub mod_pow-exact : (base exp : ℕ) → exp < 2 ^ 128 → mod_pow base exp p ≡ some (base ^ exp % p)
  unfolding mod_pow pow_loop
  mod_pow-exact base exp h =
      let reduced : base % p < p = mod-lt base (omega (arith, fits.above_one)) in
      let exact = λ (a b : ℕ) (ha : a < p) (hb : b < p). mod_mul-exact fits a b in
      rw (lt→ltb 1 p fits.above_one) (
        power_loop_lem (λ a b. mod_mul a b p) fits.above_one exact 128 1 (base % p) exp
          fits.above_one reduced h
        ∙ ap (λ (t : ℕ). some t)
            (mul-mod-pow 1 base exp p ∙ ap (λ (t : ℕ). t % p) (one-mul (base ^ exp))))
