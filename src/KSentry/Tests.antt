-- ===== src/KSentry/Tests.antt =====
-- Runs of the accumulator, and its theorems at concrete streams.
use k_sentry.Prelude.{ℕ, ◌^◌, ◌%◌, ◌≡◌, ◌↔◌, refl, arith, some, none, List, [], ◌∷◌, ◌++◌, length}
use k_sentry.Power.{power_loop}
use k_sentry.Field.{u64, triangular_exp, mod_mul, mod_add, mod_pow, pow_loop, Fits}
use k_sentry.Field.Pow.{mod_pow-exact}
use k_sentry.KSentry.{
  KSentry, new, update, digest, position, ingest, spec_loop, ksentry_spec, ksentry_fast, digest_of,
}
use k_sentry.KSentry.Exact.{ksentry_fast-eq-spec}
use k_sentry.KSentry.Sensitive.{edit-detected, swap-detected}

abbrev prime : ℕ
prime = 1_000_000_007

abbrev stream : List ℕ
stream = 3 ∷ 9 ∷ 12 ∷ 99 ∷ 5 ∷ 8 ∷ []

prime-Fits : Fits prime
prime-Fits = record { above_one = omega arith; within_u64 = omega arith }

triangular_exp_small : triangular_exp 4 ≡ 10
unfolding triangular_exp
triangular_exp_small = refl

new_asserts : new 7 1 ≡ none
unfolding new
new_asserts = refl

fast_run : digest_of stream 7 prime ≡ ksentry_spec stream 7 prime
unfolding digest_of digest ksentry_fast new ingest update ksentry_spec spec_loop mod_pow pow_loop
    power_loop mod_mul mod_add triangular_exp
fast_run = refl

mod_pow-exact_example : mod_pow 7 10 prime ≡ some (7 ^ 10 % prime)
mod_pow-exact_example = mod_pow-exact prime-Fits 7 10 (omega arith)

ksentry_fast-eq-spec_example :
    (st : KSentry) × (ksentry_fast stream 7 prime ≡ some st)
    × (ksentry_spec stream 7 prime ≡ some (digest st))
    × (position st ≡ u64 (length stream))
ksentry_fast-eq-spec_example = ksentry_fast-eq-spec prime-Fits 7 stream (omega arith) (omega arith)

edit-detected_example :
    (digest_of ((3 ∷ []) ++ 9 ∷ 12 ∷ []) 7 prime ≡ digest_of ((3 ∷ []) ++ 10 ∷ 12 ∷ []) 7 prime)
    ↔ (9 % prime ≡ 10 % prime)
edit-detected_example =
    edit-detected prime-Fits 7 142857144 (omega arith) (omega arith) (3 ∷ []) 9 10 (12 ∷ [])

swap-detected_example :
    (digest_of ((10 ∷ []) ++ 20 ∷ 30 ∷ 40 ∷ []) 7 prime
      ≡ digest_of ((10 ∷ []) ++ 30 ∷ 20 ∷ 40 ∷ []) 7 prime)
    ↔ (1490 % prime ≡ 1010 % prime)
swap-detected_example =
    swap-detected prime-Fits 7 142857144 (omega arith) (omega arith) (10 ∷ []) 20 30 (40 ∷ [])
