-- ===== src/Metrics/Mismatch/Divergence.antt =====
-- `prefix_divergence` of ksentry-metrics/src/main.rs: the first prefix whose states differ.
use mathlib.Core.Option
use k_sentry.Prelude.{
  ℕ, suc, ◌+◌, ◌*◌, ◌%◌, ◌^◌, ◌≤◌, ◌≡◌, ◌↔◌, inl, inr, refl, sym, ap, ◌∙◌, arith, Option, none,
  some, List, [], ◌∷◌, map, length, length-map, ◌==◌, ==_iff, Bool-cases,
}
use k_sentry.Prelude.Mod.{add-mod_congr, add-mod_cancel, mul-mod_cancel, mod-mul-mod, pow-inverse}
use k_sentry.Metrics.Arith.Exact.{IsModulus}
use k_sentry.Metrics.Sentry.{KSentry}
use k_sentry.Metrics.Sentry.Prefix.{states_from, prefix_states-exact}
use k_sentry.Metrics.Mismatch.{
  PrefixDivergence, first_loop, first_mismatch, divergence_at, prefix_divergence,
}

-- The index of what a search found.
abbrev pub index_of : Option (ℕ × ℕ × ℕ) → Option ℕ
index_of r = Option.map (λ t. t.0) r

-- The logs as the accumulator reads them.
abbrev pub reduced : KSentry → List ℕ → List ℕ
reduced ks xs = map (λ x. x % ks.p) xs

divergence_index : (f : Option (ℕ × ℕ × ℕ)) → (divergence_at f).first_prefix_index ≡ index_of f
unfolding divergence_at
divergence_index none = refl
divergence_index (some f) = refl

pub ==_congr : (a b c d : ℕ) → ((a ≡ b) ↔ (c ≡ d)) → (a == b) ≡ (c == d)
==_congr a b c d h = elim (Bool-cases (a == b)) [
  | inl same ↦ same ∙ sym ((==_iff c d).1 (h.0 ((==_iff a b).0 same)))
  | inr differs ↦ elim (Bool-cases (c == d)) [
    | inl same ↦ absurd (ground (arith, h.1 ((==_iff c d).0 same)))
    | inr too ↦ differs ∙ sym too
  ]
]

module _ (ks : KSentry) (m : IsModulus ks.p) (r : ℕ) (inverse : ks.q * r % ks.p ≡ 1) where
  -- One step keeps two equal states equal just where the values agree modulo `p`.
  pub step_iff :
      (s x y i : ℕ)
      → ((s + x * ks.q ^ i) % ks.p ≡ (s + y * ks.q ^ i) % ks.p) ↔ (x % ks.p ≡ y % ks.p)
  step_iff s x y i = (
    λ e.
        mul-mod_cancel x y (ks.q ^ i) (r ^ i) ks.p (pow-inverse ks.q r i ks.p m.above_one inverse) (
          add-mod_cancel (x * ks.q ^ i) (y * ks.q ^ i) s ks.p (omega (arith, m.above_one))
            (flip x ∙ e ∙ sym (flip y))),
    λ e.
        sym (flip x)
        ∙ add-mod_congr (x * ks.q ^ i) (y * ks.q ^ i) s ks.p (
            sym (mod-mul-mod x _ ks.p)
            ∙ ap (λ (t : ℕ). t * ks.q ^ i % ks.p) e
            ∙ mod-mul-mod y _ ks.p)
        ∙ flip y,
  )
    where
      flip : (t : ℕ) → (t * ks.q ^ i + s) % ks.p ≡ (s + t * ks.q ^ i) % ks.p
      flip t = ap (λ (n : ℕ). n % ks.p) (omega arith)

  first_loop-states_from :
      (n i s : ℕ) (xs ys : List ℕ)
      → index_of (first_loop n (states_from ks i s xs) (states_from ks i s ys))
        ≡ index_of (first_loop n (reduced ks xs) (reduced ks ys))
  unfolding first_loop states_from
  first_loop-states_from n i s [] ys = refl
  first_loop-states_from n i s (x ∷ xs) [] = refl
  first_loop-states_from n i s (x ∷ xs) (y ∷ ys) =
      let step = step_iff s x y (i * i) in
      let tests = ==_congr _ _ _ _ step in
      elim (Bool-cases (x % ks.p == y % ks.p)) [
        | inl same ↦
            let at = sym (step.1 ((==_iff (x % ks.p) (y % ks.p)).0 same)) in
            rw (tests, same, at)
              (first_loop-states_from (n + 1) (suc i) ((s + x * ks.q ^ (i * i)) % ks.p) xs ys)
        | inr differs ↦ rw (tests, differs)
      ]

  -- For a base that is invertible modulo a `u64` modulus and logs of one length of at most 2 ^ 32,
  -- `prefix_divergence` returns, and the index it reports is that of the first mismatch of the logs
  -- modulo `p`.
  pub prefix_divergence-first_mismatch :
      (xs ys : List ℕ)
      → length xs ≡ length ys
      → length xs ≤ 2 ^ 32
      → (d : PrefixDivergence) × (f : Option (ℕ × ℕ × ℕ)) × (prefix_divergence ks xs ys ≡ some d)
        × (first_mismatch (reduced ks xs) (reduced ks ys) ≡ some f)
        × (d.first_prefix_index ≡ index_of f)
  unfolding prefix_divergence first_mismatch
  prefix_divergence-first_mismatch xs ys same bound = (
    divergence_at (first_loop 0 (states_from ks 0 0 xs) (states_from ks 0 0 ys)),
    first_loop 0 (reduced ks xs) (reduced ks ys),
    rw
        (
          (==_iff (length xs) (length ys)).1 same,
          prefix_states-exact ks m xs bound,
          prefix_states-exact ks m ys (omega (arith, same, bound)),
        )
        refl,
    rw ((==_iff _ _).1 (length-map (λ x. x % ks.p) xs ∙ same ∙ sym (length-map (λ x. x % ks.p) ys)))
        refl,
    divergence_index _ ∙ first_loop-states_from 0 0 0 xs ys,
  )
