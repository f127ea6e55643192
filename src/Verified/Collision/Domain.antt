-- ===== src/Verified/Collision/Domain.antt =====
-- A test of the assumption on the modulus.
use k_sentry.Prelude.{
  ℕ, zero, suc, ◌*◌, ◌%◌, ◌<◌, ◌≡◌, ◌≢◌, arith, Bool, true, not, ◌&&◌, ◌||◌, ◌==◌,
}
use k_sentry.Verified.Collision.{IsDomainModP}

unfoldable pub all_below : ℕ → (ℕ → Bool) → Bool
all_below zero test = true
all_below (suc n) test = test n && all_below n test

all_below_sound :
    (n : ℕ) (test : ℕ → Bool) (x : ℕ) → all_below n test ≡ true → x < n → test x ≡ true
unfolding all_below
all_below_sound zero test x h less = absurd (omega arith)
all_below_sound (suc n) test x h less = ground (arith, all_below_sound n test x)

-- One pair of residues.
unfoldable pub pair_passes : ℕ → ℕ → ℕ → Bool
pair_passes p x y = x == 0 || y == 0 || not (x * y % p == 0)

pair-differs : (p x y : ℕ) → 0 < x → 0 < y → pair_passes p x y ≡ true → x * y % p ≢ 0
unfolding pair_passes
pair-differs p x y hx hy passes e = ground arith

pub domain_by_test :
    (p : ℕ) → 1 < p → all_below p (λ x. all_below p (pair_passes p x)) ≡ true → IsDomainModP p
domain_by_test p big passes = record {
  above_one = big;
  no_zero_divisors = λ x y hx bx hy by. pair-differs p x y hx hy (
      all_below_sound p (pair_passes p x) y
        (all_below_sound p (λ x. all_below p (pair_passes p x)) x passes bx) by);
}
