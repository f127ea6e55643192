-- ===== src/Verified/Rebase/Gaps.antt =====
-- The rolling sum and the triangular exponents of proofs/finaltest_timefence_core_verified.rs at
-- another start, and the digests of two parts.
use native.Mathlib.Decide.{ℕ_discrete, dec_lt}
use native.Mathlib.Nat.{mul-le-mul}
use k_sentry.Prelude.{
  ℕ, zero, suc, ◌+◌, ◌*◌, ◌%◌, ◌<◌, ◌≤◌, ◌≡◌, ◌≢◌, ◌↔◌, sym, ap, ap₂, ◌∙◌, arith, List, ◌++◌,
  length, inl, inr,
}
use k_sentry.Prelude.Mod.{pow-add}
use k_sentry.Field.Laws.{twice-tri}
use k_sentry.Verified.Spec.{spec_pow, ramanujan_spec, ramanujan_shifted_spec}
use k_sentry.Verified.Spec.Exact.{spec_pow-exact, tri_exp-exact, ramanujan_spec-append}
use k_sentry.Verified.Rebase.{
  rolling_raw_prefix_spec, rolling_raw_shifted_prefix_spec, tri_gap_o1, combine_digest,
  SuspiciousLeftOrRight,
}

-- For all elements, bases, shifts and lengths, the rolling sum that starts at position `s` is the
-- sum from position 0 times the one scalar q ^ s.
pub rolling_raw_shifted_prefix_spec-rebase :
    (xs : List ℕ) (q s n : ℕ)
    → rolling_raw_shifted_prefix_spec xs q s n ≡ spec_pow q s * rolling_raw_prefix_spec xs q n
unfolding rolling_raw_shifted_prefix_spec rolling_raw_prefix_spec
rolling_raw_shifted_prefix_spec-rebase xs q s zero = omega arith
rolling_raw_shifted_prefix_spec-rebase xs q s (suc n) =
    let power : spec_pow q (n + s) ≡ spec_pow q n * spec_pow q s =
      rw (spec_pow-exact, spec_pow-exact, spec_pow-exact, pow-add) in
    rw (rolling_raw_shifted_prefix_spec-rebase xs q s n, power) (omega arith)

gap-closed : (i s : ℕ) → tri_gap_o1 i s ≡ tri_gap_o1 0 s + i * s
unfolding tri_gap_o1
gap-closed i s =
    rw (tri_exp-exact, tri_exp-exact, tri_exp-exact, tri_exp-exact)
      (omega (arith, twice-tri (i + s), twice-tri i, twice-tri (0 + s), twice-tri 0))

-- For a shift above 0, the gap between the triangular exponents of two positions and their shifted
-- positions is the same only where the positions are, so no one scalar moves a digest.
pub tri_gap_o1-injective : (i j s : ℕ) → 0 < s → (tri_gap_o1 i s ≡ tri_gap_o1 j s) ↔ (i ≡ j)
tri_gap_o1-injective i j s pos = (cancel, λ e. ap (λ (t : ℕ). tri_gap_o1 t s) e)
  where
    less-gap : (a b : ℕ) → a < b → tri_gap_o1 a s < tri_gap_o1 b s
    less-gap a b less =
        let product : suc a * s ≤ b * s = mul-le-mul less (omega arith) in
        omega (arith, pos, product, gap-closed a s, gap-closed b s)

    cancel : tri_gap_o1 i s ≡ tri_gap_o1 j s → i ≡ j
    cancel e = elim (dec_lt i j) [
      | yes less ↦ absurd (omega (arith, less-gap i j less))
      | no more ↦ elim (dec_lt j i) [
        | yes less ↦ absurd (omega (arith, less-gap j i less))
        | no same ↦ omega arith
      ]
    ]

-- For traces cut in two, where the two first parts have the same length, a difference of the whole
-- digests shows as a difference of the first parts' digests or of the second parts' digests, taken
-- from where they start.
pub combine_digest-SuspiciousLeftOrRight :
    (a b a2 b2 : List ℕ) (q p : ℕ)
    → length a ≡ length a2
    → ramanujan_spec (a ++ b) q p ≢ ramanujan_spec (a2 ++ b2) q p
    → (ramanujan_spec (a ++ b) q p
        ≡ combine_digest (ramanujan_spec a q p) (ramanujan_shifted_spec b q p (length a)) p)
      × SuspiciousLeftOrRight
          (ramanujan_spec a q p)
          (ramanujan_shifted_spec b q p (length a))
          (ramanujan_spec a2 q p)
          (ramanujan_shifted_spec b2 q p (length a2))
unfolding combine_digest SuspiciousLeftOrRight
combine_digest-SuspiciousLeftOrRight a b a2 b2 q p same differ = (
  ramanujan_spec-append a b q p,
  elim (ℕ_discrete (ramanujan_spec a q p) (ramanujan_spec a2 q p)) [
    | no left ↦ inl left
    | yes left ↦ inr (λ right. differ (
        ramanujan_spec-append a b q p
        ∙ ap₂ (λ s t. (s + t) % p) left right
        ∙ sym (ramanujan_spec-append a2 b2 q p)))
  ],
)
