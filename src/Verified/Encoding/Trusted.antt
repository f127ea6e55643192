-- ===== src/Verified/Encoding/Trusted.antt =====
-- Statements that proofs/finaltest_timefence_core_verified.rs trusts (external_body), on short
-- traces.
use native.Mathlib.Nat.{mod-eq_of_lt, mul-le-mul, le_refl, pow-zero, pow-suc, mul-one, add-zero}
use k_sentry.Prelude.{ℕ, ◌+◌, ◌*◌, ◌%◌, ◌^◌, ◌≤◌, ◌<◌, ◌≡◌, ◌≢◌, refl, ap, ◌∙◌, arith}
use k_sentry.Weighted.{weighted}
use k_sentry.Field.Laws.{tri, tri-zero, tri-one, tri-suc}
use k_sentry.KSentry.Exact.{tri_sum}
use k_sentry.Verified.Spec.{ramanujan_spec, spec_pow}
use k_sentry.Verified.Spec.Exact.{ramanujan_spec-exact, spec_pow-exact}
use k_sentry.Verified.Collision.Bounded.{ramanujan_spec-injective}
use k_sentry.Verified.Encoding.{seq1, seq2, seq3, encode_len1, encode_len2, encode_len3}

pow-one : (q : ℕ) → q ^ 1 ≡ q
pow-one q = pow-suc q 0 ∙ ap (λ (t : ℕ). t * q) (pow-zero q) ∙ omega arith

tri_sum-seq1 : (a q : ℕ) → tri_sum q 0 (seq1 a) ≡ encode_len1 a q
unfolding seq1 encode_len1 weighted
tri_sum-seq1 a q = rw (tri-zero, pow-zero, mul-one, add-zero)

tri_sum-seq2 : (a b q : ℕ) → tri_sum q 0 (seq2 a b) ≡ encode_len2 a b q
unfolding seq2 encode_len2 weighted
tri_sum-seq2 a b q = rw (tri-zero, tri-one, pow-zero q, mul-one, add-zero, pow-one q)

tri_sum-seq3 : (a b c q : ℕ) → tri_sum q 0 (seq3 a b c) ≡ encode_len3 a b c q
unfolding seq3 encode_len3 weighted
tri_sum-seq3 a b c q =
    let third : tri 2 ≡ 3 = omega (arith, tri-suc 1, tri-one) in
    rw (tri-zero, tri-one, third, pow-zero q, mul-one, add-zero, spec_pow-exact q 3, pow-one q)
      (omega arith)

-- The digests of one, two and three elements are their encodings modulo `p`. The source trusts this
-- for a modulus above 1.
pub ramanujan_spec-encode :
    (a b c q p : ℕ)
    → (ramanujan_spec (seq1 a) q p ≡ encode_len1 a q % p)
      × (ramanujan_spec (seq2 a b) q p ≡ encode_len2 a b q % p)
      × (ramanujan_spec (seq3 a b c) q p ≡ encode_len3 a b c q % p)
ramanujan_spec-encode a b c q p = (
  ramanujan_spec-exact (seq1 a) q p ∙ ap (λ (t : ℕ). t % p) (tri_sum-seq1 a q),
  ramanujan_spec-exact (seq2 a b) q p ∙ ap (λ (t : ℕ). t % p) (tri_sum-seq2 a b q),
  ramanujan_spec-exact (seq3 a b c) q p ∙ ap (λ (t : ℕ). t % p) (tri_sum-seq3 a b c q),
)

module _ (bound q p : ℕ) (base : bound < q) where
  encode_len2-bound :
      (a b : ℕ) → a ≤ bound → b ≤ bound → encode_len2 a b q ≤ encode_len2 bound bound q
  unfolding encode_len2
  encode_len2-bound a b ha hb = omega (arith, mul-le-mul hb (le_refl q))

  encode_len3-bound :
      (a b c : ℕ)
      → a ≤ bound
      → b ≤ bound
      → c ≤ bound
      → encode_len3 a b c q ≤ encode_len3 bound bound bound q
  unfolding encode_len3
  encode_len3-bound a b c ha hb hc =
      omega (arith, mul-le-mul hb (le_refl q), mul-le-mul hc (le_refl (spec_pow q 3)))

  -- Two pairs of elements up to a bound that is below the base, where the encoding of the bounds is
  -- below the modulus, are the same if their digests are. The source trusts this.
  pub ramanujan_spec-collision_free_len2 :
      (a b c d : ℕ)
      → a ≤ bound
      → b ≤ bound
      → c ≤ bound
      → d ≤ bound
      → encode_len2 bound bound q < p
      → ramanujan_spec (seq2 a b) q p ≡ ramanujan_spec (seq2 c d) q p
      → seq2 a b ≡ seq2 c d
  unfolding seq2
  ramanujan_spec-collision_free_len2 a b c d ha hb hc hd fits e =
      ramanujan_spec-injective q (omega arith) p (seq2 a b) (seq2 c d)
        (omega arith, (omega arith, tt)) (omega arith, (omega arith, tt)) refl
        (omega (arith, tri_sum-seq2 a b q, encode_len2-bound a b ha hb))
        (omega (arith, tri_sum-seq2 c d q, encode_len2-bound c d hc hd)) e

  -- Two triples of elements up to a bound that is below the base, where the encoding of the bounds
  -- is below the modulus, are the same if their digests are. The source trusts this.
  pub ramanujan_spec-collision_free_len3 :
      (a b c a2 b2 c2 : ℕ)
      → a ≤ bound
      → b ≤ bound
      → c ≤ bound
      → a2 ≤ bound
      → b2 ≤ bound
      → c2 ≤ bound
      → encode_len3 bound bound bound q < p
      → ramanujan_spec (seq3 a b c) q p ≡ ramanujan_spec (seq3 a2 b2 c2) q p
      → seq3 a b c ≡ seq3 a2 b2 c2
  unfolding seq3
  ramanujan_spec-collision_free_len3 a b c a2 b2 c2 ha hb hc ha2 hb2 hc2 fits e =
      ramanujan_spec-injective q (omega arith) p (seq3 a b c) (seq3 a2 b2 c2)
        (omega arith, (omega arith, (omega arith, tt)))
        (omega arith, (omega arith, (omega arith, tt))) refl
        (omega (arith, tri_sum-seq3 a b c q, encode_len3-bound a b c ha hb hc))
        (omega (arith, tri_sum-seq3 a2 b2 c2 q, encode_len3-bound a2 b2 c2 ha2 hb2 hc2)) e

-- An element that is not 0 changes the digest when it is inserted behind another one, or deleted or
-- cut off there, where the base is not 0 and the encoding of the two elements is below the modulus.
-- The source trusts all three.
pub ramanujan_spec-extension_detected :
    (q p a b : ℕ)
    → 0 < q
    → 0 < b
    → encode_len2 a b q < p
    → (ramanujan_spec (seq1 a) q p ≢ ramanujan_spec (seq2 a b) q p)
      × (ramanujan_spec (seq2 a b) q p ≢ ramanujan_spec (seq1 a) q p)
unfolding encode_len2 encode_len1
ramanujan_spec-extension_detected q p a b above some_b fits =
    let encoded = ramanujan_spec-encode a b 0 q p in
    let grows : 1 * 1 ≤ b * q = mul-le-mul some_b above in
    let one : ramanujan_spec (seq1 a) q p ≡ a =
      unfold encode_len1 encode_len2 in encoded.0 ∙ mod-eq_of_lt (omega arith) in
    let two : ramanujan_spec (seq2 a b) q p ≡ a + b * q =
      unfold encode_len1 encode_len2 in encoded.1 ∙ mod-eq_of_lt fits in
    (λ e. absurd (omega (arith, one, two, e)), λ e. absurd (omega (arith, one, two, e)))
