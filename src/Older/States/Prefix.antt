-- ===== src/Older/States/Prefix.antt =====
-- `prefix_states` and `first_prefix_divergence` of ksentry-metrics/src/bin/main1.rs.
use native.Mathlib.Nat.{mod-mod, mod-add-mod, add_assoc, add-zero, zero-add, zero-mod}
use native.Mathlib.Numerals.{add-one}
use native.Mathlib.Decide.{ℕ_discrete}
use mathlib.Core.Option.{some-injective}
use k_sentry.Prelude.{
  ℕ, zero, suc, ◌+◌, ◌*◌, ◌%◌, ◌^◌, ◌≤◌, ◌<◌, ◌≡◌, ◌≢◌, ◌⊎◌, refl, sym, ap, ◌∙◌, arith, Option,
  none, some, false, List, [], ◌∷◌, map, length, get_elem?, take, length-take, ◌==◌, ==_iff, inl,
  inr,
}
use k_sentry.Weighted.{weighted}
use k_sentry.Field.Laws.{tri}
use k_sentry.KSentry.Exact.{tri_sum}
use k_sentry.Metrics.Arith.Exact.{IsModulus}
use k_sentry.Metrics.Sentry.{KSentry as NewerKSentry}
use k_sentry.Metrics.Mismatch.Divergence.{==_congr, step_iff}
use k_sentry.Older.{KSentry, absorb, state_for_logs}
use k_sentry.Older.Exact.{weight_for_index-exact, absorb-exact, state_for_logs-fits}
use k_sentry.Older.States.{prefix_loop, prefix_states, divergence_loop, first_prefix_divergence}

-- The states behind each element, from the state `s` at position `i`.
unfoldable states_from : KSentry → ℕ → ℕ → List ℕ → List ℕ
states_from ks i s [] = []
states_from ks i s (x ∷ xs) =
    (s + x * ks.q ^ tri i) % ks.p ∷ states_from ks (suc i) ((s + x * ks.q ^ tri i) % ks.p) xs

-- The logs as the accumulator reads them.
abbrev pub reduced : KSentry → List ℕ → List ℕ
reduced ks xs = map (λ x. x % ks.p) xs

length-states_from :
    (ks : KSentry) (i s : ℕ) (xs : List ℕ) → length (states_from ks i s xs) ≡ length xs
unfolding states_from
length-states_from ks i s [] = refl
length-states_from ks i s (x ∷ xs) = ap suc (length-states_from ks (suc i) _ xs)

-- What a search that counts from `start` should find in two lists: nothing where they agree at every
-- common index, and else the first common index at which they differ.
abbrev pub Diverges : List ℕ → List ℕ → ℕ → Option ℕ → Type 0
Diverges xs ys start found =
    ((found ≡ none) × ((k : ℕ) → k < length xs → k < length ys → get_elem? xs k ≡ get_elem? ys k))
    ⊎ ((i : ℕ) × (found ≡ some (start + i))
        × (i < length xs)
        × (i < length ys)
        × ((get_elem? xs i ≢ get_elem? ys i) × ((k : ℕ) → k < i → get_elem? xs k ≡ get_elem? ys k)))

Diverges-cons :
    (start x y : ℕ) (xs ys : List ℕ) (found : Option ℕ)
    → x ≡ y
    → Diverges xs ys (start + 1) found
    → Diverges (x ∷ xs) (y ∷ ys) start found
Diverges-cons start x y xs ys found same rest = elim rest [
  | inl (nothing, agree) ↦ inl (nothing, λ k h1 h2. agree_cons k h1 h2 agree)
  | inr (i, at, h1, h2, (differ, agree)) ↦ inr (
    suc i,
    at ∙ ap (λ (t : ℕ). some t) (omega arith),
    omega arith,
    omega arith,
    (differ, λ k h. before_cons i k h agree),
  )
]
  where
    agree_cons :
        (k : ℕ)
        → k < length (x ∷ xs)
        → k < length (y ∷ ys)
        → ((k : ℕ) → k < length xs → k < length ys → get_elem? xs k ≡ get_elem? ys k)
        → get_elem? (x ∷ xs) k ≡ get_elem? (y ∷ ys) k
    agree_cons zero h1 h2 agree = ap (λ (t : ℕ). some t) same
    agree_cons (suc k) h1 h2 agree = agree k (omega arith) (omega arith)

    before_cons :
        (i k : ℕ)
        → k < suc i
        → ((k : ℕ) → k < i → get_elem? xs k ≡ get_elem? ys k)
        → get_elem? (x ∷ xs) k ≡ get_elem? (y ∷ ys) k
    before_cons i zero h agree = ap (λ (t : ℕ). some t) same
    before_cons i (suc k) h agree = agree k (omega arith)

module _ (ks : KSentry) (m : IsModulus ks.p) where
  prefix_loop-exact :
      (i s : ℕ) (xs : List ℕ)
      → s % ks.p ≡ s
      → i + length xs ≤ 2 ^ 32
      → prefix_loop ks i s xs ≡ some (states_from ks i s xs)
  unfolding prefix_loop states_from
  prefix_loop-exact i s [] e h = refl
  prefix_loop-exact i s (x ∷ xs) e h =
      let step : absorb ks s x (ks.q ^ tri i % ks.p) ≡ (s + x * ks.q ^ tri i) % ks.p =
        ap (λ (t : ℕ). absorb ks t x (ks.q ^ tri i % ks.p)) (sym e)
        ∙ absorb-exact ks m s x (ks.q ^ tri i) in
      let rest =
        prefix_loop-exact (suc i) ((s + x * ks.q ^ tri i) % ks.p) xs (mod-mod _ _)
          (omega (arith, h)) in
      rw (weight_for_index-exact ks m i (omega (arith, h)), step, add-one, rest)

  prefix_states-exact :
      (xs : List ℕ) → length xs ≤ 2 ^ 32 → prefix_states ks xs ≡ some (states_from ks 0 0 xs)
  unfolding prefix_states
  prefix_states-exact xs h = prefix_loop-exact 0 0 xs (zero-mod ks.p) (omega (arith, h))

  get_elem?-states_from :
      (i total : ℕ) (xs : List ℕ) (k : ℕ)
      → k < length xs
      → get_elem? (states_from ks i (total % ks.p) xs) k
        ≡ some ((total + tri_sum ks.q i (take (suc k) xs)) % ks.p)
  unfolding states_from weighted
  get_elem?-states_from i total [] k h = absurd (omega arith)
  get_elem?-states_from i total (x ∷ xs) zero h = rw (mod-add-mod total ks.p, add-zero)
  get_elem?-states_from i total (x ∷ xs) (suc k) h =
      rw (mod-add-mod total ks.p, ← add_assoc)
        (get_elem?-states_from (suc i) (total + x * ks.q ^ tri i) xs k (omega (arith, h)))

  -- For a `u64` modulus above 1 and at most 2 ^ 32 logs, the older binary's `prefix_states` returns
  -- one state for each log, and the state at an index is `state_for_logs` of the logs up to there.
  pub prefix_states-take :
      (xs : List ℕ) (k : ℕ)
      → length xs ≤ 2 ^ 32
      → k < length xs
      → (states : List ℕ) × (prefix_states ks xs ≡ some states)
        × (length states ≡ length xs)
        × (get_elem? states k ≡ state_for_logs ks (take (suc k) xs))
  prefix_states-take xs k h inside = (
    states_from ks 0 0 xs,
    prefix_states-exact xs h,
    length-states_from ks 0 0 xs,
    simp zero-add at (rw (zero-mod ks.p) at (get_elem?-states_from 0 0 xs k inside))
        ∙ sym
            (state_for_logs-fits ks m (take (suc k) xs) (omega (arith, h, length-take (suc k) xs))),
  )

  module _ (r : ℕ) (inverse : ks.q * r % ks.p ≡ 1) where
    abbrev newer : NewerKSentry
    newer = record { state = 0; q = ks.q; p = ks.p }

    divergence_loop-Diverges :
        (n i s : ℕ) (xs ys : List ℕ)
        → Diverges
            (reduced ks xs)
            (reduced ks ys)
            n
            (divergence_loop n (states_from ks i s xs) (states_from ks i s ys))
    unfolding divergence_loop states_from
    divergence_loop-Diverges n i s [] ys = inl (refl, λ k h1 h2. absurd (omega arith))
    divergence_loop-Diverges n i s (x ∷ xs) [] = inl (refl, λ k h1 h2. absurd (omega arith))
    divergence_loop-Diverges n i s (x ∷ xs) (y ∷ ys) =
        let step = step_iff newer m r inverse s x y (tri i) in
        let tests = ==_congr _ _ _ _ step in
        elim (ℕ_discrete (x % ks.p) (y % ks.p)) [
          | yes same ↦
              let test = (==_iff (x % ks.p) (y % ks.p)).1 same in
              let at = sym (step.1 same) in
              rw (tests, test, at)
                (Diverges-cons n (x % ks.p) (y % ks.p) (reduced ks xs) (reduced ks ys) _ same
                  (divergence_loop-Diverges (n + 1) (suc i) ((s + x * ks.q ^ tri i) % ks.p) xs ys))
          | no differs ↦
              let test : (x % ks.p == y % ks.p) ≡ false = ground arith in
              inr (
                0,
                rw (tests, test) (ap (λ (t : ℕ). some t) (omega arith)),
                omega arith,
                omega arith,
                (λ e. differs (some-injective _ _ e), λ k h. absurd (omega arith)),
              )
        ]

    -- For a base that has an inverse modulo a `u64` modulus above 1 and two logs of at most 2 ^ 32
    -- entries, also of two lengths, both prefix computations of the older binary return, and the
    -- search on their states finds nothing where the logs agree modulo `p` at every common index;
    -- else it finds the first common index, counted from 0, at which they do not.
    pub first_prefix_divergence-reduced :
        (xs ys : List ℕ)
        → length xs ≤ 2 ^ 32
        → length ys ≤ 2 ^ 32
        → (states1 states2 : List ℕ) × (prefix_states ks xs ≡ some states1)
          × (prefix_states ks ys ≡ some states2)
          × Diverges (reduced ks xs) (reduced ks ys) 0 (first_prefix_divergence states1 states2)
    unfolding first_prefix_divergence
    first_prefix_divergence-reduced xs ys hx hy = (
      states_from ks 0 0 xs,
      states_from ks 0 0 ys,
      prefix_states-exact xs hx,
      prefix_states-exact ys hy,
      divergence_loop-Diverges 0 0 0 xs ys,
    )
