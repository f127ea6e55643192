-- ===== src/Verified/Prefix/Simulates.antt =====
-- The streaming state of proofs/finaltest_timefence_core_verified.rs with its invariant, and the
-- accumulator of timefence-core/src/ksentry.rs against it.
use native.Mathlib.Nat.{add-mod-mod, mod-add-mod, zero-add, pow-suc, zero-mod}
use native.Mathlib.Numerals.{add-one}
use k_sentry.Prelude.{
  ℕ, zero, suc, ◌+◌, ◌*◌, ◌%◌, ◌^◌, ◌<◌, ◌≤◌, ◌≡◌, refl, sym, ap, ◌∙◌, arith, List, [], ◌∷◌, ◌++◌,
  length, take, length-take, some,
}
use k_sentry.Prelude.Mod.{pow-add}
use k_sentry.Weighted.{weighted}
use k_sentry.Field.{u64, Fits}
use k_sentry.Field.Laws.{tri, tri-suc, mod_add-exact}
use k_sentry.KSentry.{KSentry, update, digest_of}
use k_sentry.KSentry.Exact.{tri_sum, reduced-product}
use k_sentry.Verified.Spec.{ramanujan_spec}
use k_sentry.Verified.Spec.Exact.{
  spec_pow-exact, tri_exp-exact, ramanujan_spec-exact, tri_sum-snoc, digest_of-ramanujan_spec,
}
use k_sentry.Verified.Prefix.{
  elem, ks_prefix_spec, O1StateInv, o1_next_acc, o1_next_weight, o1_next_step,
}

-- A prefix with one more element.
take-snoc : (n : ℕ) (xs : List ℕ) → n < length xs → take (suc n) xs ≡ take n xs ++ elem xs n ∷ []
take-snoc n [] h = absurd (omega arith)
take-snoc zero (x ∷ xs) h = refl
take-snoc (suc n) (x ∷ xs) h = ap (λ l. x ∷ l) (take-snoc n xs (omega arith))

-- For every number of elements up to the length, the prefix specification is the digest of the
-- prefix.
pub ks_prefix_spec-ramanujan_spec :
    (xs : List ℕ) (q p n : ℕ)
    → n ≤ length xs
    → ks_prefix_spec xs q p n ≡ ramanujan_spec (take n xs) q p
unfolding ks_prefix_spec weighted
ks_prefix_spec-ramanujan_spec xs q p zero h = sym (ramanujan_spec-exact [] q p ∙ zero-mod p)
ks_prefix_spec-ramanujan_spec xs q p (suc n) h =
    let first = take n xs in
    let size : length first ≡ n = omega (arith, length-take n xs, h) in
    let last = elem xs n in
    rw
      (
        ramanujan_spec-exact (take (suc n) xs) q p,
        take-snoc n xs h,
        tri_sum-snoc q 0 first last,
        size,
        zero-add,
        ks_prefix_spec-ramanujan_spec xs q p n (omega (arith, h)),
        ramanujan_spec-exact first q p,
        tri_exp-exact n,
        spec_pow-exact q (tri n),
        add-mod-mod,
      )
      (mod-add-mod (tri_sum q 0 first) p (last * q ^ tri n))

-- For a modulus above 0, the streaming step keeps the invariant: where a next element is left, it
-- leads from the state of a prefix to the state of the prefix with that element.
pub o1_step-O1StateInv :
    (xs : List ℕ) (q p n acc weight step : ℕ)
    → n < length xs
    → O1StateInv xs q p n acc weight step
    → O1StateInv xs q p
        (suc n)
        (o1_next_acc acc (elem xs n) weight p)
        (o1_next_weight weight step p)
        (o1_next_step step q p)
unfolding o1_next_acc o1_next_weight o1_next_step ks_prefix_spec
o1_step-O1StateInv xs q p n acc weight step h inv = record {
  above_zero = inv.above_zero;
  in_range = omega arith;
  acc_is = rw (inv.acc_is, inv.weight_is);
  weight_is = rw (
    inv.weight_is, inv.step_is, add-one, tri_exp-exact, tri_exp-exact, spec_pow-exact,
    spec_pow-exact, spec_pow-exact, tri-suc, pow-add,
  );
  step_is = rw (inv.step_is, spec_pow-exact, spec_pow-exact, add-one, add-one, ← pow-suc);
}

-- The accumulator's state, with the weights of the streaming state reduced.
pub record Follows (q p n acc weight step : ℕ) (st : KSentry) : Type 0 where
  pub base : st.q ≡ q % p
  pub modulus : st.p ≡ p
  pub position : st.n ≡ u64 n
  pub sum : st.acc ≡ acc
  pub weight_mod : st.weight ≡ weight % p
  pub step_mod : st.step ≡ step % p

module _ {p : ℕ} (fits : Fits p) (q : ℕ) where
  -- For a modulus of 2 to 2 ^ 64, one update of the accumulator follows one streaming step. Where its
  -- base is the streaming base modulo `p`, its modulus `p`, its sum that of the streaming state, its
  -- weight and its step those of the streaming state modulo `p`, and its position the number of
  -- elements modulo 2 ^ 64, all of this holds again after both have taken in the same element.
  pub update-Follows :
      (n acc weight step x : ℕ) (st : KSentry)
      → Follows q p n acc weight step st
      → Follows q p
          (suc n)
          (o1_next_acc acc x weight p)
          (o1_next_weight weight step p)
          (o1_next_step step q p)
          (update st x)
  unfolding update o1_next_acc o1_next_weight o1_next_step
  update-Follows n acc weight step x st f = record {
    base = f.base;
    modulus = f.modulus;
    position = omega (arith, f.position);
    sum =
        simp (f.modulus, f.sum, f.weight_mod)
          (mod_add-exact fits acc _
            ∙ ap (λ (t : ℕ). (acc + t) % p) (reduced-product fits q x weight));
    weight_mod = simp (f.modulus, f.weight_mod, f.step_mod) (reduced-product fits q weight step);
    step_mod = simp (f.modulus, f.base, f.step_mod) (reduced-product fits q step q);
  }

  -- For a modulus of 2 to 2 ^ 64, a base that is not 0 and every number `n` of elements up to the
  -- length, the accumulator's digest of the first `n` elements is the prefix specification at `n`.
  pub digest_of-ks_prefix_spec :
      (xs : List ℕ) (n : ℕ)
      → 0 < q
      → n ≤ length xs
      → digest_of (take n xs) q p ≡ some (ks_prefix_spec xs q p n)
  digest_of-ks_prefix_spec xs n hq h =
      digest_of-ramanujan_spec fits q (take n xs) hq
      ∙ ap (λ (t : ℕ). some t) (sym (ks_prefix_spec-ramanujan_spec xs q p n h))
