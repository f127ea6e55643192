-- ===== src/Verified/Tests.antt =====
-- Runs of the definitions of proofs/finaltest_timefence_core_verified.rs and instances of the
-- theorems about them.
use mathlib.Core.Option.{some-injective}
use k_sentry.Prelude.{
  ℕ, ◌↔◌, Bool, ◌≤◌, ◌<◌, ◌≡◌, refl, ap, arith, List, [], ◌∷◌, true, some, get_elem?, All,
}
use k_sentry.Field.{Fits}
use k_sentry.KSentry
use k_sentry.KSentry.{digest_of}
use k_sentry.Metrics.Arith.Exact.{IsModulus}
use k_sentry.Verified.Spec.{ramanujan_spec}
use k_sentry.Verified.Spec.Exact.{digest_of-ramanujan_spec}
use k_sentry.Verified.Mismatch.{find_first_mismatch, find_loop}
use k_sentry.Verified.Mismatch.Contract.{Ensures, find_first_mismatch-Ensures}
use k_sentry.Verified.Prefix.Simulates.{Follows}
use k_sentry.Verified.Exec.{
  run_from_empty_k, ingest_telemetry_k, ingest_loop, calculate_weight_internal, weight_loop,
  mul_mod_u64, add_mod_u64,
}
use k_sentry.Verified.Exec.Refines.{run_from_empty_k-refines}
use k_sentry.Verified.Collision.{
  IsPrimeInt, Divides, IsDomainModP, bad_q_count, square_degree_bound,
}
use k_sentry.Verified.Collision.Domain.{domain_by_test, all_below, pair_passes}
use k_sentry.Verified.Collision.Prime.{
  no_divisor_test, no_divisor_test-IsDomainModP, IsPrimeInt-Divides_iff,
}
use k_sentry.Verified.Collision.Bound.{bad_q_count-bound, bad_q_count-same_residues}
use k_sentry.Weighted.{weighted}
use k_sentry.Field.Laws.{tri-suc, tri-zero, tri-one}
use k_sentry.KSentry.Exact.{tri_sum}
use k_sentry.Verified.Collision.Count.{count}
use k_sentry.Verified.Collision.Production.{collides, collides-bound}
use k_sentry.Verified.Collision.Bounded.{ramanujan_spec-injective}

small-Fits : Fits 101
small-Fits = record { above_one = omega arith; within_u64 = omega arith }

small-IsModulus : IsModulus 101
small-IsModulus = record { above_one = omega arith; is_u64 = omega arith }

-- Three logs at base 3 modulo 101: 5 + 7 * 3 + 11 * 27 = 323.
run_from_empty_k_three_logs : run_from_empty_k (5 ∷ 7 ∷ 11 ∷ []) 3 101 3 ≡ 20
unfolding run_from_empty_k ingest_telemetry_k ingest_loop calculate_weight_internal weight_loop
    mul_mod_u64 add_mod_u64
run_from_empty_k_three_logs = refl

run_from_empty_k-refines_example :
    (run_from_empty_k (5 ∷ 7 ∷ 11 ∷ []) 3 101 3 ≡ ramanujan_spec (5 ∷ 7 ∷ 11 ∷ []) 3 101)
    × (run_from_empty_k (5 ∷ 7 ∷ 11 ∷ []) 3 101 3 < 101)
run_from_empty_k-refines_example =
    run_from_empty_k-refines small-IsModulus 3 (omega arith) (5 ∷ 7 ∷ 11 ∷ []) 3
      (omega arith, (omega arith, (omega arith, tt))) (omega arith) (omega arith)

digest_of-ramanujan_spec_example :
    digest_of (5 ∷ 7 ∷ 11 ∷ []) 3 101 ≡ some (ramanujan_spec (5 ∷ 7 ∷ 11 ∷ []) 3 101)
digest_of-ramanujan_spec_example =
    digest_of-ramanujan_spec small-Fits 3 (5 ∷ 7 ∷ 11 ∷ []) (omega arith)

p31_is_domain : IsDomainModP 31
unfolding all_below pair_passes
p31_is_domain = domain_by_test 31 (omega arith) refl

-- 1 + 2 q + 0 q^3 and 1 + 0 q + 4 q^3 differ modulo 31.
bad_q_count-bound_example : bad_q_count (1 ∷ 2 ∷ 0 ∷ []) (1 ∷ 0 ∷ 4 ∷ []) 31 ≤ square_degree_bound 3
bad_q_count-bound_example =
    bad_q_count-bound p31_is_domain (1 ∷ 2 ∷ 0 ∷ []) (1 ∷ 0 ∷ 4 ∷ []) refl
      (λ e. absurd (omega (arith, some-injective 2 0 (ap (λ (l : List ℕ). get_elem? l 1) e))))

-- The traces of one log, 0 and 5, are different and collide at each of the 5 bases.
bad_q_count-same_residues_example : bad_q_count (0 ∷ []) (5 ∷ []) 5 ≡ 5
bad_q_count-same_residues_example = bad_q_count-same_residues 5 (omega arith) (0 ∷ []) (5 ∷ []) refl

abbrev reference : List ℕ
reference = 1 ∷ 2 ∷ 3 ∷ []

abbrev tampered : List ℕ
tampered = 1 ∷ 5 ∷ 3 ∷ []

find_first_mismatch_run : find_first_mismatch reference tampered ≡ some (true, 1, 2, 5)
unfolding find_first_mismatch find_loop
find_first_mismatch_run = refl

-- The accumulator and the streaming state at the start, for the base 3 modulo 101.
abbrev start : KSentry.KSentry
start = record { q = 3; p = 101; n = 0; acc = 0; weight = 1; step = 3 }

start-Follows : Follows 3 101 0 0 1 3 start
start-Follows = record {
  base = refl;
  modulus = refl;
  position = refl;
  sum = refl;
  weight_mod = refl;
  step_mod = refl;
}

-- 5 + 7 * 10 + 2 * 10 ^ 3 is below 10007.
abbrev small_trace : List ℕ
small_trace = 5 ∷ 7 ∷ 2 ∷ []

below_ten : All (λ c. c < 10) small_trace
below_ten = (omega arith, (omega arith, (omega arith, tt)))

small_sum : tri_sum 10 0 small_trace < 10_007
unfolding weighted
small_sum = rw (tri-suc 1, tri-one, tri-zero) (omega arith)

ramanujan_spec-injective_example : small_trace ≡ small_trace
ramanujan_spec-injective_example =
    ramanujan_spec-injective 10 (omega arith) 10_007 small_trace small_trace below_ten below_ten
      refl small_sum small_sum refl

p31-Fits : Fits 31
p31-Fits = record { above_one = omega arith; within_u64 = omega arith }

collides-bound_example :
    count (collides (1 ∷ 2 ∷ 0 ∷ []) (1 ∷ 0 ∷ 4 ∷ []) 31) 31 ≤ square_degree_bound 3
collides-bound_example =
    collides-bound p31-Fits p31_is_domain (1 ∷ 2 ∷ 0 ∷ []) (1 ∷ 0 ∷ 4 ∷ []) refl
      (λ e. absurd (omega (arith, some-injective 2 0 (ap (λ (l : List ℕ). get_elem? l 1) e))))

-- The modulus of timefence-core/src/bench.rs.
no_divisor_test-IsDomainModP_run : IsDomainModP 1_000_000_007
unfolding no_divisor_test
no_divisor_test-IsDomainModP_run =
    no_divisor_test-IsDomainModP 1_000_000_007 15 (omega arith) (omega arith) refl

IsPrimeInt-Divides_iff_example :
    IsPrimeInt 1_000_000_007
    ↔ ((1 < 1_000_000_007) × ((d : ℕ) → 1 < d → Divides d 1_000_000_007 → d ≡ 1_000_000_007))
IsPrimeInt-Divides_iff_example = IsPrimeInt-Divides_iff 1_000_000_007

find_first_mismatch-Ensures_example :
    (res : Bool × ℕ × ℕ × ℕ) × (find_first_mismatch (1 ∷ 2 ∷ []) (1 ∷ 3 ∷ []) ≡ some res)
    × Ensures (1 ∷ 2 ∷ []) (1 ∷ 3 ∷ []) res
find_first_mismatch-Ensures_example = find_first_mismatch-Ensures (1 ∷ 2 ∷ []) (1 ∷ 3 ∷ []) refl
