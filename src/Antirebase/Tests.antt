-- ===== src/Antirebase/Tests.antt =====
-- The demonstration at the parameters of the repository's test, and the theorems there.
use k_sentry.Prelude.{ℕ, ◌%◌, ◌^◌, ◌+◌, ◌≡◌, refl, arith, some, true, [], ◌∷◌, ◌++◌}
use k_sentry.Power.{power_loop}
use k_sentry.Field.{mod_mul, mod_add, mod_pow, pow_loop, Fits}
use k_sentry.KSentry.{new, update, digest, ingest, ksentry_fast, digest_of}
use k_sentry.Antirebase.{
  triangular_exp, shifted_loop, ksentry_shifted_spec, fake_scalar_rebase,
  demo_ksentry_not_one_scalar_rebase,
}
use k_sentry.Antirebase.Offset.{digest_of-append}
use k_sentry.Antirebase.Demo.{no_scalar_rebase}

abbrev prime : ℕ
prime = 1_000_000_007

prime-Fits : Fits prime
prime-Fits = record { above_one = omega arith; within_u64 = omega arith }

demo_run : demo_ksentry_not_one_scalar_rebase 7 prime ≡ some true
unfolding demo_ksentry_not_one_scalar_rebase digest_of digest ksentry_fast new ingest update
    ksentry_shifted_spec shifted_loop fake_scalar_rebase mod_pow pow_loop power_loop mod_mul mod_add
    triangular_exp
demo_run = refl

digest_of-append_example :
    (a b : ℕ) × (digest_of (1 ∷ 2 ∷ []) 7 prime ≡ some a)
    × (ksentry_shifted_spec (3 ∷ []) 7 prime 2 ≡ some b)
    × (digest_of ((1 ∷ 2 ∷ []) ++ 3 ∷ []) 7 prime ≡ some ((a + b) % prime))
digest_of-append_example =
    digest_of-append prime-Fits 7 (1 ∷ 2 ∷ []) (3 ∷ []) (omega arith) (omega arith)

-- With the modulus 6 the base 5 has order 2, so at offset 2 a scalar does exist.
no_scalar_rebase_example : 5 ^ 2 % 6 ≡ 1
unfolding digest_of digest ksentry_fast new ingest update ksentry_shifted_spec shifted_loop mod_pow
    pow_loop power_loop mod_mul mod_add triangular_exp
no_scalar_rebase_example =
    no_scalar_rebase {p = 6} (record { above_one = omega arith; within_u64 = omega arith }) 5
      (omega arith) 5 2 5 1 5 5 1 (omega arith) (omega arith) refl refl refl refl refl refl
