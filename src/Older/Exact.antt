-- ===== src/Older/Exact.antt =====
-- The digest of ksentry-metrics/src/bin/main1.rs against that of the Verus specification.
use native.Mathlib.Nat.{
  mod-lt, mod-mod, add-mod-mod, mod-add-mod, add_assoc, add-zero, zero-add, zero-mod, mul-le-mul,
  mod-eq_of_lt,
}
use native.Mathlib.Decide.{dec_lt}
use native.Mathlib.Numerals.{add-one}
use k_sentry.Prelude.{
  ℕ, suc, ◌+◌, ◌-◌, ◌*◌, ◌/◌, ◌%◌, ◌^◌, ◌≤◌, ◌<◌, ◌≡◌, refl, arith, none, some, List, [], ◌∷◌,
  length, leb, Bool-cases, inl, inr, lt→ltb, if◌then◌else◌,
}
use k_sentry.Prelude.Mod.{mul-mod}
use k_sentry.Weighted.{weighted}
use k_sentry.Field.{u64}
use k_sentry.Field.Laws.{tri, twice-tri}
use k_sentry.KSentry.Exact.{tri_sum}
use k_sentry.Metrics.Arith.Exact.{
  IsModulus, add_mod_u64-exact, mul_mod_u64-exact, pow_mod_u64-exact,
}
use k_sentry.Verified.Spec.{ramanujan_spec}
use k_sentry.Verified.Spec.Exact.{ramanujan_spec-exact}
use k_sentry.Older.{
  KSentry, checked_mul, weight_for_index, absorb, ingest_loop, ingest_telemetry, state_for_logs,
}

-- An index of 32 bits has a product of 64.
product-lt : (i : ℕ) → i < 2 ^ 32 → i * (i + 1) < 2 ^ 64
product-lt i h =
    let square : i * i ≤ (2 ^ 32 - 1) * (2 ^ 32 - 1) = mul-le-mul (the i h) (the i h) in
    omega (arith, square)
  where
    the : (i : ℕ) → i < 2 ^ 32 → i ≤ 2 ^ 32 - 1
    the i h = omega arith

module _ (ks : KSentry) (m : IsModulus ks.p) where
  pub weight_for_index-exact :
      (i : ℕ) → i < 2 ^ 32 → weight_for_index ks i ≡ some (ks.q ^ tri i % ks.p)
  unfolding weight_for_index checked_mul
  weight_for_index-exact i h =
      let next : u64 (i + 1) ≡ i + 1 = mod-eq_of_lt (omega arith) in
      let half : i * (i + 1) / 2 ≡ tri i = omega (arith, twice-tri i) in
      rw (next, lt→ltb (i * (i + 1)) (2 ^ 64) (product-lt i h), half)
        (pow_mod_u64-exact m ks.q (tri i) (omega (arith, product-lt i h, twice-tri i)))

  weight_for_index-overflow : weight_for_index ks (2 ^ 32) ≡ none
  unfolding weight_for_index checked_mul
  weight_for_index-overflow = refl

  pub absorb-exact :
      (total x w : ℕ) → absorb ks (total % ks.p) x (w % ks.p) ≡ (total + x * w) % ks.p
  unfolding absorb
  absorb-exact total x w =
      let pos : 0 < ks.p = omega (arith, m.above_one) in
      rw
        (
          mul_mod_u64-exact m (x % ks.p) (w % ks.p) (mod-lt x pos) (mod-lt w pos),
          mul-mod x w ks.p,
          add_mod_u64-exact m (total % ks.p) (x * w % ks.p) (mod-lt total pos) (mod-lt (x * w) pos),
          mod-mod,
          mod-add-mod total ks.p,
        )
        (add-mod-mod total (x * w) ks.p)

  ingest_loop-exact :
      (i total : ℕ) (xs : List ℕ)
      → i + length xs ≤ 2 ^ 32
      → ingest_loop ks i (total % ks.p) xs ≡ some ((total + tri_sum ks.q i xs) % ks.p)
  unfolding ingest_loop weighted
  ingest_loop-exact i total [] h = rw add-zero
  ingest_loop-exact i total (x ∷ xs) h =
      rw
        (
          weight_for_index-exact i (omega (arith, h)),
          absorb-exact total x (ks.q ^ tri i),
          add-one,
          ← add_assoc,
        )
        (ingest_loop-exact (suc i) (total + x * ks.q ^ tri i) xs (omega (arith, h)))

  pub state_for_logs-fits :
      (xs : List ℕ) → length xs ≤ 2 ^ 32 → state_for_logs ks xs ≡ some (tri_sum ks.q 0 xs % ks.p)
  unfolding state_for_logs ingest_telemetry
  state_for_logs-fits xs h =
      let run =
        simp zero-add at (rw (zero-mod ks.p) at (ingest_loop-exact 0 0 xs (omega (arith, h)))) in
      rw run

  ingest_loop-overflow :
      (i state : ℕ) (xs : List ℕ)
      → i ≤ 2 ^ 32
      → 2 ^ 32 < i + length xs
      → ingest_loop ks i state xs ≡ none
  unfolding ingest_loop
  ingest_loop-overflow i state [] le h = absurd (omega arith)
  ingest_loop-overflow i state (x ∷ xs) le h = elim (dec_lt i (2 ^ 32)) [
    | yes small ↦
        rw (weight_for_index-exact i small, add-one)
          (ingest_loop-overflow (suc i) _ xs small (omega (arith, h)))
    | no big ↦ let last : i ≡ 2 ^ 32 = omega arith in rw (last, weight_for_index-overflow)
  ]

  -- For a `u64` modulus above 1, the older binary returns the digest of the Verus specification for
  -- at most 2 ^ 32 logs; for more it panics.
  pub older_state-ramanujan_spec :
      (xs : List ℕ)
      → state_for_logs ks xs
        ≡ (if leb (length xs) (2 ^ 32) then some (ramanujan_spec xs ks.q ks.p) else none)
  unfolding state_for_logs ingest_telemetry
  older_state-ramanujan_spec xs = elim (Bool-cases (leb (length xs) (2 ^ 32))) [
    | inl fits ↦
        rw (fits, ramanujan_spec-exact xs ks.q ks.p)
          (unfold state_for_logs ingest_telemetry in state_for_logs-fits xs (ground arith))
    | inr over ↦ rw (over, ingest_loop-overflow 0 0 xs (omega arith) (ground arith))
  ]
