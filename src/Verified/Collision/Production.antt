-- ===== src/Verified/Collision/Production.antt =====
-- The bound of proofs/finaltest_timefence_core_verified.rs for the accumulator of
-- timefence-core/src/ksentry.rs.
use k_sentry.Prelude.{
  ℕ, ◌%◌, ◌<◌, ◌≤◌, ◌≡◌, ◌≢◌, sym, ◌∙◌, arith, Option, none, some, List, length, map, Bool, true,
  false, ◌&&◌, ltb, ltb→lt, lt→ltb, ◌==◌, Bool-cases, inl, inr,
}
use k_sentry.Field.{Fits}
use k_sentry.KSentry.{digest_of}
use k_sentry.Verified.Spec.{ramanujan_spec}
use k_sentry.Verified.Spec.Exact.{digest_of-ramanujan_spec}
use k_sentry.Verified.Collision.{IsDomainModP, bad_q_for_traces, square_degree_bound}
use k_sentry.Verified.Collision.Count.{count, count_mono}
use k_sentry.Verified.Collision.Bound.{bad_q_count-count, bad_q_count-bound}

-- Two accumulators return, and their digests are the same.
unfoldable pub same_digest : Option ℕ → Option ℕ → Bool
same_digest (some a) (some b) = a == b
same_digest (some a) none = false
same_digest none b = false

-- A base above 0 at which two streams have the same digest.
unfoldable pub collides : List ℕ → List ℕ → ℕ → ℕ → Bool
collides xs ys p q = ltb 0 q && same_digest (digest_of xs q p) (digest_of ys q p)

module _ {p : ℕ} (fits : Fits p) where
  same_digest-bad :
      (xs ys : List ℕ) (q : ℕ)
      → 0 < q
      → same_digest (digest_of xs q p) (digest_of ys q p)
        ≡ (ramanujan_spec xs q p == ramanujan_spec ys q p)
  unfolding same_digest
  same_digest-bad xs ys q hq =
      rw (digest_of-ramanujan_spec fits q xs hq, digest_of-ramanujan_spec fits q ys hq)

  collides-bad :
      (xs ys : List ℕ) (q : ℕ)
      → q < p
      → collides xs ys p q ≡ true
      → bad_q_for_traces xs ys q p ≡ true
  unfolding collides bad_q_for_traces
  collides-bad xs ys q small h = elim (Bool-cases (ltb 0 q)) [
    | inl above ↦
        let same : same_digest (digest_of xs q p) (digest_of ys q p) ≡ true = rw above at h in
        rw (lt→ltb q p small) (sym (same_digest-bad xs ys q (ltb→lt 0 q above)) ∙ same)
    | inr zero_base ↦ absurd (ground (arith, h, zero_base))
  ]

  -- For a modulus of 2 to 2 ^ 64 under which no two residues other than 0 have the product 0, and two
  -- streams of the same length n that are not the same modulo it, the accumulator gives them the
  -- same digest for at most n * (n - 1) / 2 of the bases from 1 to below the modulus.
  pub collides-bound :
      (domain : IsDomainModP p) (xs ys : List ℕ)
      → length xs ≡ length ys
      → map (λ x. x % p) xs ≢ map (λ y. y % p) ys
      → count (collides xs ys p) p ≤ square_degree_bound (length xs)
  collides-bound domain xs ys same differ = omega (
    arith,
    count_mono (collides xs ys p) (λ q. bad_q_for_traces xs ys q p) p
        (λ q small h. collides-bad xs ys q small h),
    bad_q_count-count p (omega (arith, fits.above_one)) xs ys,
    bad_q_count-bound domain xs ys same differ,
  )
