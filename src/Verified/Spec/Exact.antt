-- ===== src/Verified/Spec/Exact.antt =====
-- The specification of proofs/finaltest_timefence_core_verified.rs as a weighted sum.
use mathlib.Core.List.{reverse, reverse-cons, reverse-reverse}
use native.Mathlib.Nat.{
  mod-add-mod, add-mod-mod, add-mod, zero-add, add-zero, pow-suc, pow-zero, mul_comm, zero-mod,
}
use k_sentry.Prelude.{
  ℕ, zero, suc, ◌+◌, ◌*◌, ◌%◌, ◌^◌, ◌<◌, ◌≡◌, refl, sym, ap, some, ◌∙◌, arith, List, [], ◌∷◌, ◌++◌,
  length, length-append,
}
use k_sentry.Prelude.Mod.{mul-mod-mod}
use k_sentry.Weighted.{weighted, weighted-append, powers}
use k_sentry.Field.{Fits}
use k_sentry.KSentry.{digest_of}
use k_sentry.Field.Laws.{tri, twice-tri}
use k_sentry.KSentry.Exact.{tri_sum, digest_of-exact}
use k_sentry.Verified.Spec.{
  spec_pow, tri_exp, shifted_rev, ramanujan_rev, ramanujan_spec, ramanujan_shifted_spec,
}

pub spec_pow-exact : (q n : ℕ) → spec_pow q n ≡ q ^ n
unfolding spec_pow
spec_pow-exact q zero = sym (pow-zero q)
spec_pow-exact q (suc n) = rw (spec_pow-exact q n, pow-suc) (mul_comm q (q ^ n))

pub tri_exp-exact : (i : ℕ) → tri_exp i ≡ tri i
unfolding tri_exp
tri_exp-exact i = omega (arith, twice-tri i)

pub length-reverse : (xs : List ℕ) → length (reverse xs) ≡ length xs
length-reverse [] = refl
length-reverse (x ∷ xs) =
    rw (reverse-cons x xs, length-append (reverse xs) (x ∷ []), length-reverse xs) (omega arith)

-- A sum whose last term is reduced on the way.
pub add-last : (total x w p : ℕ) → (total % p + x * (w % p)) % p ≡ (total + x * w) % p
add-last total x w p =
    mod-add-mod total p _
    ∙ sym (add-mod-mod total (x * (w % p)) p)
    ∙ ap (λ (t : ℕ). (total + t) % p) (mul-mod-mod x w p)
    ∙ add-mod-mod total (x * w) p

-- The sum over a list with one more element at its end.
pub tri_sum-snoc :
    (q i : ℕ) (xs : List ℕ) (x : ℕ)
    → tri_sum q i (xs ++ x ∷ []) ≡ tri_sum q i xs + x * q ^ tri (i + length xs)
unfolding weighted
tri_sum-snoc q i xs x = rw (weighted-append (powers tri q) i xs (x ∷ []), add-zero)

shifted_rev-exact :
    (xs : List ℕ) (q p offset : ℕ) → shifted_rev xs q p offset ≡ tri_sum q offset (reverse xs) % p
unfolding shifted_rev weighted
shifted_rev-exact [] q p offset = sym (zero-mod p)
shifted_rev-exact (last ∷ rest) q p offset =
    rw
      (
        reverse-cons last rest,
        tri_sum-snoc q offset (reverse rest) last,
        length-reverse rest,
        shifted_rev-exact rest q p offset,
        tri_exp-exact,
        spec_pow-exact,
      )
      (add-last (tri_sum q offset (reverse rest)) last (q ^ tri (offset + length rest)) p)

ramanujan_rev-shifted_rev : (xs : List ℕ) (q p : ℕ) → ramanujan_rev xs q p ≡ shifted_rev xs q p 0
unfolding ramanujan_rev shifted_rev
ramanujan_rev-shifted_rev [] q p = refl
ramanujan_rev-shifted_rev (last ∷ rest) q p =
    rw (ramanujan_rev-shifted_rev rest q p, zero-add (length rest))

pub ramanujan_shifted_spec-exact :
    (xs : List ℕ) (q p offset : ℕ) → ramanujan_shifted_spec xs q p offset ≡ tri_sum q offset xs % p
unfolding ramanujan_shifted_spec
ramanujan_shifted_spec-exact xs q p offset =
    rw (reverse-reverse xs) at (shifted_rev-exact (reverse xs) q p offset)

pub ramanujan_spec-exact : (xs : List ℕ) (q p : ℕ) → ramanujan_spec xs q p ≡ tri_sum q 0 xs % p
unfolding ramanujan_spec
ramanujan_spec-exact xs q p =
    ramanujan_rev-shifted_rev (reverse xs) q p
    ∙ rw (reverse-reverse xs) at (shifted_rev-exact (reverse xs) q p 0)

-- For all traces, bases and moduli, the digest of two traces in a row is the sum of the first
-- trace's digest and the second's digest shifted by the first's length, modulo `p`.
pub ramanujan_spec-append :
    (a b : List ℕ) (q p : ℕ)
    → ramanujan_spec (a ++ b) q p
      ≡ (ramanujan_spec a q p + ramanujan_shifted_spec b q p (length a)) % p
ramanujan_spec-append a b q p =
    rw
      (
        ramanujan_spec-exact (a ++ b) q p,
        ramanujan_spec-exact a q p,
        ramanujan_shifted_spec-exact b q p (length a),
        weighted-append (powers tri q) 0 a b,
        zero-add,
      )
      (add-mod (tri_sum q 0 a) (tri_sum q (length a) b) p)

-- For a modulus of 2 to 2 ^ 64 and a base that is not 0, the digest that the accumulator of
-- timefence-core/src/ksentry.rs returns is the value of the Verus specification.
pub digest_of-ramanujan_spec :
    {p : ℕ} (fits : Fits p) (q : ℕ) (xs : List ℕ)
    → 0 < q
    → digest_of xs q p ≡ some (ramanujan_spec xs q p)
digest_of-ramanujan_spec fits q xs hq =
    rw (ramanujan_spec-exact xs q _) (digest_of-exact fits q xs hq)
