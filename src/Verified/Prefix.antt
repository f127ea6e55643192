-- ===== src/Verified/Prefix.antt =====
-- proofs/finaltest_timefence_core_verified.rs: the streaming state with constant work per element,
-- its invariant and its step. An index out of range, which the source recommends against, reads 0.
pub mod Simulates
use k_sentry.Prelude.{
  ℕ, zero, suc, ◌+◌, ◌*◌, ◌%◌, ◌<◌, ◌≤◌, ◌≡◌, List, [], ◌∷◌, length, get_elem?, none, some,
}
use k_sentry.Verified.Spec.{spec_pow, tri_exp}

abbrev pub elem : List ℕ → ℕ → ℕ
elem xs i = elim (get_elem? xs i) [ none ↦ 0 | some x ↦ x ]

unfoldable pub ks_prefix_spec : List ℕ → ℕ → ℕ → ℕ → ℕ
ks_prefix_spec xs q p zero = 0
ks_prefix_spec xs q p (suc n) =
    let prev = ks_prefix_spec xs q p n in
    let x = elem xs n in (prev + x * spec_pow q (tri_exp n) % p) % p

pub record O1StateInv (xs : List ℕ) (q p n acc weight step : ℕ) : Type 0 where
  pub above_zero : 0 < p
  pub in_range : n ≤ length xs
  pub acc_is : acc ≡ ks_prefix_spec xs q p n
  pub weight_is : weight ≡ spec_pow q (tri_exp n)
  pub step_is : step ≡ spec_pow q (n + 1)

unfoldable pub o1_next_acc : ℕ → ℕ → ℕ → ℕ → ℕ
o1_next_acc acc x weight p = (acc + x * weight % p) % p

unfoldable pub o1_next_weight : ℕ → ℕ → ℕ → ℕ
o1_next_weight weight step p = weight * step

unfoldable pub o1_next_step : ℕ → ℕ → ℕ → ℕ
o1_next_step step q p = step * q
