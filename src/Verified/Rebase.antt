-- ===== src/Verified/Rebase.antt =====
-- proofs/finaltest_timefence_core_verified.rs: the rolling hash whose exponents are affine, the gaps
-- of the triangular exponents, and the combination of two digests.
pub mod Gaps
use k_sentry.Prelude.{ℕ, zero, suc, ◌+◌, ◌-◌, ◌*◌, ◌%◌, ◌≢◌, ◌⊎◌, List}
use k_sentry.Verified.Spec.{spec_pow, tri_exp}
use k_sentry.Verified.Prefix.{elem}

unfoldable pub rolling_raw_prefix_spec : List ℕ → ℕ → ℕ → ℕ
rolling_raw_prefix_spec xs q zero = 0
rolling_raw_prefix_spec xs q (suc n) =
    let prev = rolling_raw_prefix_spec xs q n in prev + elem xs n * spec_pow q n

unfoldable pub rolling_raw_shifted_prefix_spec : List ℕ → ℕ → ℕ → ℕ → ℕ
rolling_raw_shifted_prefix_spec xs q s zero = 0
rolling_raw_shifted_prefix_spec xs q s (suc n) =
    let prev = rolling_raw_shifted_prefix_spec xs q s n in prev + elem xs n * spec_pow q (n + s)

-- The later exponent is never below the earlier one.
unfoldable pub tri_gap_o1 : ℕ → ℕ → ℕ
tri_gap_o1 i s = tri_exp (i + s) - tri_exp i

unfoldable pub combine_digest : ℕ → ℕ → ℕ → ℕ
combine_digest left right p = (left + right) % p

unfoldable pub SuspiciousLeftOrRight : ℕ → ℕ → ℕ → ℕ → Type 0
SuspiciousLeftOrRight expected_left expected_right observed_left observed_right =
    (expected_left ≢ observed_left) ⊎ (expected_right ≢ observed_right)
