-- ===== src/Verified/Difference/Tests.antt =====
-- The difference polynomial of proofs/finaltest_timefence_core_verified.rs at concrete traces.
use k_sentry.Prelude.{◌≡◌, refl, [], ◌∷◌}
use k_sentry.Prelude.Int.{negsuc, ◌+ℤ◌, ◌-ℤ◌, ◌*ℤ◌}
use k_sentry.Verified.Spec.{spec_pow, tri_exp}
use k_sentry.Verified.Collision.{diff_poly_eval_mod}
use k_sentry.Verified.Difference.{mod_ℤ, diff_coeff_at, diff_poly_sum_mod, diff_poly_sum_full}
use k_sentry.Verified.Difference.Exact.{diff_poly_sum_full-eval}

coeff_run : diff_coeff_at (5 ∷ 7 ∷ []) (5 ∷ 9 ∷ []) 1 ≡ negsuc 1
unfolding diff_coeff_at ◌-ℤ◌
coeff_run = refl

-- -2 * 3 modulo 101.
sum_run : diff_poly_sum_full (5 ∷ 7 ∷ []) (5 ∷ 9 ∷ []) 3 101 ≡ 95
unfolding diff_poly_sum_full diff_poly_sum_mod diff_coeff_at mod_ℤ spec_pow tri_exp ◌+ℤ◌ ◌-ℤ◌ ◌*ℤ◌
sum_run = refl

diff_poly_sum_full-eval_example :
    diff_poly_sum_full (5 ∷ 7 ∷ []) (5 ∷ 9 ∷ []) 3 101
    ≡ diff_poly_eval_mod (5 ∷ 7 ∷ []) (5 ∷ 9 ∷ []) 3 101
diff_poly_sum_full-eval_example = diff_poly_sum_full-eval (5 ∷ 7 ∷ []) (5 ∷ 9 ∷ []) 3 101
