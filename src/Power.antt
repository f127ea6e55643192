-- ===== src/Power.antt =====
-- Square and multiply, over a modular product: the loop that `mod_pow` of
-- timefence-core/src/ksentry.rs and `pow_mod_u64` of ksentry-metrics/src/main.rs share.
pub mod Exact
use k_sentry.Prelude.{ℕ, zero, suc, ◌/◌, ◌%◌, Option, none, some, ◌==◌, ltb, if◌then◌else◌}

-- The `while exp > 0`, with a bound on its rounds; `none` means that they ran out.
unfoldable pub power_loop : (ℕ → ℕ → ℕ) → ℕ → ℕ → ℕ → ℕ → Option ℕ
power_loop mul zero result base exp = none
power_loop mul (suc rounds) result base exp =
    let result' = if exp % 2 == 1 then mul result base else result in
    let rest = power_loop mul rounds result' (mul base base) (exp / 2) in
    if ltb 0 exp then rest else some result
