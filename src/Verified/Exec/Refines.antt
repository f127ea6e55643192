-- ===== src/Verified/Exec/Refines.antt =====
-- The executable accumulator of proofs/finaltest_timefence_core_verified.rs against its
-- specification.
use native.Mathlib.Nat.{
  mod-lt, mod-eq_of_lt, mul-le-mul, pow-suc, pow-zero, add-zero, zero-add, mod-add-mod, add-mod-mod,
  zero-mod, add_assoc,
}
use native.Mathlib.Numerals.{add-one}
use k_sentry.Prelude.{
  ℕ, zero, suc, ◌+◌, ◌-◌, ◌*◌, ◌/◌, ◌%◌, ◌^◌, ◌≤◌, ◌<◌, ◌≡◌, refl, sym, ap, ◌∙◌, arith, List, [],
  ◌∷◌, length, All,
}
use k_sentry.Prelude.Mod.{mod-mul-mod, mul-mod-mod}
use k_sentry.Field.{u64}
use k_sentry.Field.Laws.{tri, twice-tri}
use k_sentry.Weighted.{weighted}
use k_sentry.KSentry.Exact.{tri_sum}
use k_sentry.Metrics.Arith.{add_mod_u64 as metrics_add}
use k_sentry.Metrics.Arith.Exact.{IsModulus, add_mod_u64-exact as metrics_add-exact}
use k_sentry.Verified.Spec.{ramanujan_spec}
use k_sentry.Verified.Spec.Exact.{ramanujan_spec-exact}
use k_sentry.Verified.Exec.{
  KSentry, add_mod_u64, mul_mod_u64, weight_loop, calculate_weight_internal, ingest_loop,
  ingest_telemetry_k, run_from_empty_k,
}

abbrev pub IsU64 : ℕ → Type 0
IsU64 x = x < 2 ^ 64

below_square : (m a b : ℕ) → a ≤ m → b ≤ m → a * b ≤ m * m
below_square m a b ha hb = mul-le-mul ha hb

-- The preconditions on the modulus and the base.
module _ {p : ℕ} (m : IsModulus p) (q : ℕ) (hq : q < 2 ^ 64) where
  reduced-lt : (a : ℕ) → a % p < p
  reduced-lt a = mod-lt a (omega (arith, m.above_one))

  reduced-IsU64 : (a : ℕ) → IsU64 (a % p)
  reduced-IsU64 a = omega (arith, reduced-lt a, m.is_u64)

  add_mod_u64-exact : (a b : ℕ) → a < p → b < p → add_mod_u64 a b p ≡ (a + b) % p
  unfolding add_mod_u64 metrics_add
  add_mod_u64-exact a b ha hb = metrics_add-exact m a b ha hb

  -- The factors need not be reduced.
  mul_mod_u64-exact : (a b : ℕ) → IsU64 a → IsU64 b → mul_mod_u64 a b p ≡ a * b % p
  unfolding mul_mod_u64
  mul_mod_u64-exact a b ha hb =
      let product : a * b ≤ (2 ^ 64 - 1) * (2 ^ 64 - 1) =
        below_square (2 ^ 64 - 1) a b (omega arith) (omega arith) in
      let fits : a * b < 2 ^ 128 = omega (arith, product) in
      rw (mod-eq_of_lt fits) (mod-eq_of_lt (reduced-IsU64 (a * b)))

  weight_loop-exact : (left c : ℕ) → weight_loop left q p (q ^ c % p) ≡ q ^ (c + left) % p
  unfolding weight_loop
  weight_loop-exact zero c = rw (add-zero c)
  weight_loop-exact (suc left) c =
      let next : c + suc left ≡ suc c + left = omega arith in
      rw
        (
          mul_mod_u64-exact (q ^ c % p) q (reduced-IsU64 (q ^ c)) hq,
          mod-mul-mod (q ^ c) q p,
          ← pow-suc q c,
          next,
        )
        (weight_loop-exact left (suc c))

  -- An index of 32 bits has an exponent of 64.
  calculate_weight_internal-exact :
      (ks : KSentry) (i : ℕ)
      → ks.q ≡ q
      → ks.p ≡ p
      → i < 2 ^ 32
      → calculate_weight_internal ks i ≡ q ^ tri i % p
  unfolding calculate_weight_internal
  calculate_weight_internal-exact ks i base modulus hi =
      let square : i * i ≤ (2 ^ 32 - 1) * (2 ^ 32 - 1) =
        below_square (2 ^ 32 - 1) i i (omega arith) (omega arith) in
      let next : u64 (i + 1) ≡ i + 1 = omega arith in
      let whole : u64 (i * (i + 1)) ≡ i * (i + 1) = mod-eq_of_lt (omega (arith, square)) in
      let half : i * (i + 1) / 2 ≡ tri i = omega (arith, twice-tri i) in
      let one : u64 (1 % p) ≡ q ^ 0 % p = rw (pow-zero q) (mod-eq_of_lt (reduced-IsU64 1)) in
      rw (base, modulus, next, whole, half, one)
        (rw (zero-add (tri i)) at (weight_loop-exact (tri i) 0))

  add-term :
      (total x w : ℕ)
      → IsU64 x
      → add_mod_u64 (total % p) (mul_mod_u64 x (w % p) p) p ≡ (total + x * w) % p
  add-term total x w hx =
      rw (mul_mod_u64-exact x (w % p) hx (reduced-IsU64 w), mul-mod-mod x w p)
        (add_mod_u64-exact (total % p) (x * w % p) (reduced-lt total) (reduced-lt (x * w))
          ∙ mod-add-mod total p _
          ∙ add-mod-mod total (x * w) p)

  ingest_loop-exact :
      (ks : KSentry) (i total : ℕ) (xs : List ℕ)
      → ks.q ≡ q
      → ks.p ≡ p
      → ks.state ≡ total % p
      → All IsU64 xs
      → i + length xs ≤ 2 ^ 32
      → (ingest_loop ks i xs).state ≡ (total + tri_sum q i xs) % p
  unfolding ingest_loop weighted
  ingest_loop-exact ks i total [] base modulus state words h = rw (state, add-zero)
  ingest_loop-exact ks i total (x ∷ xs) base modulus state words h =
      let index : u64 i ≡ i = omega (arith, h) in
      let weight : calculate_weight_internal ks (u64 i) ≡ q ^ tri i % p =
        rw index (calculate_weight_internal-exact ks i base modulus (omega (arith, h))) in
      let after = record ks {
        state =
            add_mod_u64 ks.state (mul_mod_u64 x (calculate_weight_internal ks (u64 i)) ks.p) ks.p;
      } in
      let rest =
        ingest_loop-exact after (suc i) (total + x * q ^ tri i) xs base modulus
          (simp (state, weight, modulus) (add-term total x (q ^ tri i) words.0)) words.1
          (omega (arith, h)) in
      ap (λ (t : ℕ). (ingest_loop after t xs).state) (add-one i)
      ∙ rest
      ∙ ap (λ (t : ℕ). t % p) (add_assoc total (x * q ^ tri i) (tri_sum q (suc i) xs))

  -- For a `u64` modulus above 1, a `u64` base, at most `k` logs of 64 bits and `k` below 2 ^ 32, the
  -- executable accumulator returns the specification's digest, and that is below the modulus.
  pub run_from_empty_k-refines :
      (xs : List ℕ) (k : ℕ)
      → All IsU64 xs
      → length xs ≤ k
      → k < 2 ^ 32
      → (run_from_empty_k xs q p k ≡ ramanujan_spec xs q p) × (run_from_empty_k xs q p k < p)
  unfolding run_from_empty_k ingest_telemetry_k
  run_from_empty_k-refines xs k words short small =
      let run =
        ingest_loop-exact (record { state = 0; q = q; p = p }) 0 0 xs refl refl (sym (zero-mod p))
          words (omega (arith, short, small)) in
      rw (run, zero-add, ramanujan_spec-exact xs q p) (refl, reduced-lt (tri_sum q 0 xs))
