-- ===== src/Metrics/Sentry/Prefix.antt =====
-- `prefix_states` of ksentry-metrics/src/main.rs lists the states of the prefixes.
use native.Mathlib.Nat.{mod-mod, mod-add-mod, add_assoc, add-zero, zero-add, zero-mod}
use native.Mathlib.Numerals.{add-one}
use k_sentry.Prelude.{
  ℕ, zero, suc, ◌+◌, ◌*◌, ◌%◌, ◌^◌, ◌≤◌, ◌<◌, ◌≡◌, refl, sym, ap, ◌∙◌, arith, some, List, [], ◌∷◌,
  length, get_elem?, take, length-take,
}
use k_sentry.Weighted.{weighted}
use k_sentry.Metrics.Arith.Exact.{IsModulus}
use k_sentry.Metrics.Sentry.{KSentry, absorb, prefix_loop, prefix_states, state_for_logs}
use k_sentry.Metrics.Sentry.Exact.{
  square_sum, weight_for_index-exact, absorb-exact, state_for_logs-fits,
}

-- The states behind each element, from the state `s` at position `i`.
unfoldable pub states_from : KSentry → ℕ → ℕ → List ℕ → List ℕ
states_from ks i s [] = []
states_from ks i s (x ∷ xs) =
    (s + x * ks.q ^ (i * i)) % ks.p ∷ states_from ks (suc i) ((s + x * ks.q ^ (i * i)) % ks.p) xs

length-states_from :
    (ks : KSentry) (i s : ℕ) (xs : List ℕ) → length (states_from ks i s xs) ≡ length xs
unfolding states_from
length-states_from ks i s [] = refl
length-states_from ks i s (x ∷ xs) = ap suc (length-states_from ks (suc i) _ xs)

module _ (ks : KSentry) (m : IsModulus ks.p) where
  prefix_loop-exact :
      (i s : ℕ) (xs : List ℕ)
      → s % ks.p ≡ s
      → i + length xs ≤ 2 ^ 32
      → prefix_loop ks i s xs ≡ some (states_from ks i s xs)
  unfolding prefix_loop states_from
  prefix_loop-exact i s [] e h = refl
  prefix_loop-exact i s (x ∷ xs) e h =
      let step : absorb ks s x (ks.q ^ (i * i) % ks.p) ≡ (s + x * ks.q ^ (i * i)) % ks.p =
        ap (λ (t : ℕ). absorb ks t x (ks.q ^ (i * i) % ks.p)) (sym e)
        ∙ absorb-exact ks m s x (ks.q ^ (i * i)) in
      let rest =
        prefix_loop-exact (suc i) ((s + x * ks.q ^ (i * i)) % ks.p) xs (mod-mod _ _)
          (omega (arith, h)) in
      rw (weight_for_index-exact ks m i (omega (arith, h)), step, add-one, rest)

  pub prefix_states-exact :
      (xs : List ℕ) → length xs ≤ 2 ^ 32 → prefix_states ks xs ≡ some (states_from ks 0 0 xs)
  unfolding prefix_states
  prefix_states-exact xs h = prefix_loop-exact 0 0 xs (zero-mod ks.p) (omega (arith, h))

  get_elem?-states_from :
      (i total : ℕ) (xs : List ℕ) (k : ℕ)
      → k < length xs
      → get_elem? (states_from ks i (total % ks.p) xs) k
        ≡ some ((total + square_sum ks.q i (take (suc k) xs)) % ks.p)
  unfolding states_from weighted
  get_elem?-states_from i total [] k h = absurd (omega arith)
  get_elem?-states_from i total (x ∷ xs) zero h = rw (mod-add-mod total ks.p, add-zero)
  get_elem?-states_from i total (x ∷ xs) (suc k) h =
      rw (mod-add-mod total ks.p, ← add_assoc)
        (get_elem?-states_from (suc i) (total + x * ks.q ^ (i * i)) xs k (omega (arith, h)))

  -- For a `u64` modulus above 1 and at most 2 ^ 32 logs, `prefix_states` returns one state for each
  -- log, and the state at an index is `state_for_logs` of the logs up to there.
  pub prefix_states-prefix :
      (xs : List ℕ) (k : ℕ)
      → length xs ≤ 2 ^ 32
      → k < length xs
      → (states : List ℕ) × (prefix_states ks xs ≡ some states)
        × (length states ≡ length xs)
        × (get_elem? states k ≡ state_for_logs ks (take (suc k) xs))
  prefix_states-prefix xs k h inside = (
    states_from ks 0 0 xs,
    prefix_states-exact xs h,
    length-states_from ks 0 0 xs,
    simp zero-add at (rw (zero-mod ks.p) at (get_elem?-states_from 0 0 xs k inside))
        ∙ sym
            (state_for_logs-fits ks m (take (suc k) xs) (omega (arith, h, length-take (suc k) xs))),
  )
