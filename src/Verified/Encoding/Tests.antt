-- ===== src/Verified/Encoding/Tests.antt =====
-- The short traces of proofs/finaltest_timefence_core_verified.rs at concrete values.
use k_sentry.Prelude.{◌≡◌, ◌≢◌, refl, arith}
use k_sentry.Verified.Spec.{ramanujan_spec, spec_pow}
use k_sentry.Verified.Encoding.{seq1, seq2, seq3, encode_len2, encode_len3}
use k_sentry.Verified.Encoding.Trusted.{
  ramanujan_spec-collision_free_len3, ramanujan_spec-extension_detected,
}

encode_len3_run : encode_len3 1 2 3 10 ≡ 3021
unfolding encode_len3 spec_pow
encode_len3_run = refl

ramanujan_spec-collision_free_len3_run : seq3 1 2 3 ≡ seq3 1 2 3
unfolding encode_len3 spec_pow
ramanujan_spec-collision_free_len3_run =
    ramanujan_spec-collision_free_len3 9 10 10_007 (omega arith) 1 2 3 1 2 3 (omega arith)
      (omega arith) (omega arith) (omega arith) (omega arith) (omega arith) (omega arith) refl

ramanujan_spec-extension_detected_example :
    (ramanujan_spec (seq1 5) 10 101 ≢ ramanujan_spec (seq2 5 7) 10 101)
    × (ramanujan_spec (seq2 5 7) 10 101 ≢ ramanujan_spec (seq1 5) 10 101)
unfolding encode_len2
ramanujan_spec-extension_detected_example =
    ramanujan_spec-extension_detected 10 101 5 7 (omega arith) (omega arith) (omega arith)
