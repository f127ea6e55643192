-- ===== src/Field.antt =====
-- timefence-core/src/ksentry.rs: the modular arithmetic below the accumulators.
-- A `u128` or `u64` is a plain number and each operation that can overflow has its wrap-around
-- written out, as a release build computes it. The callers assert that `p` is above 1, so the
-- remainders by 0, at which Rust panics, are not reached.
pub mod Laws
pub mod Pow
use k_sentry.Power.{power_loop}
use k_sentry.Prelude.{
  ℕ, zero, suc, ◌+◌, ◌*◌, ◌/◌, ◌%◌, ◌^◌, ◌≤◌, ◌<◌, Option, none, some, ◌>>◌, ◌>>=◌, assert, ltb,
  ◌==◌, if◌then◌else◌,
}

abbrev pub u64 : ℕ → ℕ
u64 n = n % 2 ^ 64

abbrev pub u128 : ℕ → ℕ
u128 n = n % 2 ^ 128

unfoldable pub triangular_exp : ℕ → ℕ
triangular_exp i = u128 (i * u128 (i + 1)) / 2

unfoldable pub mod_mul : ℕ → ℕ → ℕ → ℕ
mod_mul a b p = u128 ((a % p) * (b % p)) % p

unfoldable pub mod_add : ℕ → ℕ → ℕ → ℕ
mod_add a b p = u128 (a % p + b % p) % p

-- The `while` of `mod_pow`.
unfoldable pub pow_loop : ℕ → ℕ → ℕ → ℕ → ℕ → Option ℕ
pow_loop rounds result base exp p = power_loop (λ a b. mod_mul a b p) rounds result base exp

-- A `u128` exponent has 128 bits, so its loop is over after 128 rounds and one last test.
unfoldable pub mod_pow : ℕ → ℕ → ℕ → Option ℕ
mod_pow base exp p = do assert (ltb 1 p); pow_loop 129 1 (base % p) exp p

-- The moduli for which no product of two remainders overflows a `u128`.
pub record Fits (p : ℕ) : Type 0 where
  pub above_one : 1 < p
  pub within_u64 : p ≤ 2 ^ 64
