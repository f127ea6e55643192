-- ===== src/Metrics/Arith.antt =====
-- ksentry-metrics/src/main.rs: modular arithmetic on `u64`, with the wrap-around written out. The
-- constructor asserts that `p` is above 1, so no remainder is by 0.
pub mod Exact
use k_sentry.Power.{power_loop}
use k_sentry.Prelude.{ℕ, ◌+◌, ◌-◌, ◌*◌, ◌%◌, ◌^◌, Option, leb, if◌then◌else◌}
use k_sentry.Field.{u64, u128}

-- `p - b` on `u64`.
abbrev pub sub_u64 : ℕ → ℕ → ℕ
sub_u64 a b = (a + 2 ^ 64 - b) % 2 ^ 64

unfoldable pub add_mod_u64 : ℕ → ℕ → ℕ → ℕ
add_mod_u64 a b p = let t = sub_u64 p b in if leb t a then sub_u64 a t else u64 (a + b)

unfoldable pub mul_mod_u64 : ℕ → ℕ → ℕ → ℕ
mul_mod_u64 a b p = u64 (u128 (a * b) % p)

-- A `u64` exponent has 64 bits, so the loop is over after 64 rounds and one last test; `none`
-- would mean that the rounds ran out.
unfoldable pub pow_mod_u64 : ℕ → ℕ → ℕ → Option ℕ
pow_mod_u64 base exp p = power_loop (λ a b. mul_mod_u64 a b p) 65 (1 % p) (base % p) exp
