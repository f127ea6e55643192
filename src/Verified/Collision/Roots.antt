-- ===== src/Verified/Collision/Roots.antt =====
-- proofs/finaltest_timefence_core_verified.rs: the roots of the difference polynomial against the
-- bases that make two traces collide.
use native.Mathlib.Nat.{mod-lt, mod-eq_of_lt, mod-eq-sub-mod}
use native.Mathlib.Decide.{dec_lt}
use k_sentry.Prelude.{
  ℕ, zero, suc, ◌+◌, ◌-◌, ◌%◌, ◌<◌, ◌≡◌, ◌↔◌, refl, arith, List, length, true, false, leb, ◌==◌,
  ==_iff,
}
use k_sentry.Verified.Spec.{ramanujan_spec}
use k_sentry.Verified.Spec.Exact.{ramanujan_spec-exact}
use k_sentry.Verified.Collision.{
  bad_q_for_traces, count_bad_q_up_to, bad_q_count, diff_poly_eval_mod, root_q_for_diff_poly,
  count_root_q_up_to, diff_poly_root_count,
}

-- `lemma_eq_in_range_iff_sub_mod_zero`
sub-mod-zero_iff : (x y p : ℕ) → x < p → y < p → ((x + p - y) % p ≡ 0) ↔ (x ≡ y)
sub-mod-zero_iff x y p hx hy = elim (dec_lt x y) [
  | yes less ↦
      let value : (x + p - y) % p ≡ x + p - y = mod-eq_of_lt (omega arith) in
      (λ e. absurd (omega (arith, value)), λ e. absurd (omega arith))
  | no more ↦
      let wrapped : (x + p - y) % p ≡ (x + p - y - p) % p = mod-eq-sub-mod (omega arith) in
      let value : (x + p - y - p) % p ≡ x + p - y - p = mod-eq_of_lt (omega arith) in
      (λ e. omega (arith, wrapped, value), λ e. omega (arith, wrapped, value))
]

module _ (p : ℕ) (big : 1 < p) (w w2 : List ℕ) (same : length w ≡ length w2) where
  spec-lt : (logs : List ℕ) (q : ℕ) → ramanujan_spec logs q p < p
  spec-lt logs q = rw (ramanujan_spec-exact logs q p) (mod-lt _ (omega arith))

  root-bad : (q : ℕ) → root_q_for_diff_poly w w2 q p ≡ bad_q_for_traces w w2 q p
  unfolding root_q_for_diff_poly bad_q_for_traces diff_poly_eval_mod
  root-bad q =
      let a = ramanujan_spec w q p in
      let b = ramanujan_spec w2 q p in
      let lens : (length w == length w2) ≡ true = (==_iff _ _).1 same in
      let above : leb p 1 ≡ false = ground arith in
      let zero_test : ((a + p - b) % p == 0) ≡ (a == b) =
        ground (arith, sub-mod-zero_iff a b p (spec-lt w q) (spec-lt w2 q)) in
      rw (lens, above, zero_test)

  root-bad-counts : (k : ℕ) → count_root_q_up_to w w2 p k ≡ count_bad_q_up_to w w2 p k
  unfolding count_root_q_up_to count_bad_q_up_to
  root-bad-counts zero = refl
  root-bad-counts (suc k) = rw (root-bad-counts k, root-bad k)

  -- For a modulus above 1 and traces of the same length, the difference polynomial has as many
  -- roots below the modulus as bases make the traces collide.
  pub diff_poly_root_count-bad_q_count : diff_poly_root_count w w2 p ≡ bad_q_count w w2 p
  unfolding diff_poly_root_count bad_q_count
  diff_poly_root_count-bad_q_count = rw (root-bad-counts p)
