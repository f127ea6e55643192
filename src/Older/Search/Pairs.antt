-- ===== src/Older/Search/Pairs.antt =====
-- The search over pairs of ksentry-metrics/src/bin/main1.rs decides whether two pairs have one state.
use mathlib.Core.Option.{some-injective}
use k_sentry.Prelude.{
  ℕ, ◌%◌, ◌≤◌, ◌≡◌, ◌↔◌, refl, sym, ap, ◌∙◌, arith, Option, none, some, [], ◌∷◌, inl, inr, Bool,
  true, ◌==◌, ==_iff, ◌&&◌, Bool-cases,
}
use k_sentry.KSentry.Exact.{tri_sum}
use k_sentry.Metrics.Arith.Exact.{IsModulus}
use k_sentry.Metrics.Checks.Search.{up_to, Outcome, Decides, up_to-Decides}
use k_sentry.Older.{KSentry, state_for_logs}
use k_sentry.Older.Exact.{state_for_logs-fits}
use k_sentry.Older.Search.{found, pair_body, bounded_collision_search_len2}

-- Two different pairs up to the bound with one state.
abbrev pub HasCollision : KSentry → ℕ → Type 0
HasCollision ks bound =
    (a b c d : ℕ) × (a ≤ bound)
    × (b ≤ bound)
    × (c ≤ bound)
    × (d ≤ bound)
    × (¬ ((a ≡ c) × (b ≡ d)))
    × (state_for_logs ks (a ∷ b ∷ []) ≡ state_for_logs ks (c ∷ d ∷ []))

-- A pair shares its state with no other one.
abbrev pub Separated : KSentry → ℕ → ℕ → ℕ → ℕ → Type 0
Separated ks a b c d =
    state_for_logs ks (a ∷ b ∷ []) ≡ state_for_logs ks (c ∷ d ∷ []) → (a ≡ c) × (b ≡ d)

module _ (ks : KSentry) (m : IsModulus ks.p) (bound : ℕ) where
  abbrev Good : Unit {0} → Type 0
  Good hit = HasCollision ks bound

  pair_body-Decides :
      (a b c d : ℕ)
      → a ≤ bound
      → b ≤ bound
      → c ≤ bound
      → d ≤ bound
      → Decides Good (Separated ks a b c d) (pair_body ks a b c d)
  unfolding pair_body
  pair_body-Decides a b c d ha hb hc hd =
      let s1 = tri_sum ks.q 0 (a ∷ b ∷ []) % ks.p in
      let s2 = tri_sum ks.q 0 (c ∷ d ∷ []) % ks.p in
      let e1 : state_for_logs ks (a ∷ b ∷ []) ≡ some s1 =
        state_for_logs-fits ks m (a ∷ b ∷ []) (omega arith) in
      let e2 : state_for_logs ks (c ∷ d ∷ []) ≡ some s2 =
        state_for_logs-fits ks m (c ∷ d ∷ []) (omega arith) in
      elim (Bool-cases ((a == c) && (b == d))) [
        | inl same ↦ (none, rw same refl, λ t. ground (arith, same))
        | inr other ↦ elim (Bool-cases (s1 == s2)) [
          | inl hit ↦ (
            some tt,
            rw (other, e1, e2, hit) refl,
            (
              a,
              b,
              c,
              d,
              ha,
              hb,
              hc,
              hd,
              λ t. ground (arith, other, t.0, t.1),
              e1 ∙ ap (λ (t : ℕ). some t) ((==_iff s1 s2).0 hit) ∙ sym e2,
            ),
          )
          | inr miss ↦ (
            none,
            rw (other, e1, e2, miss) refl,
            λ t. absurd (ground (arith, miss, some-injective s1 s2 (sym e1 ∙ t ∙ e2))),
          )
        ]
      ]

  abbrev AllSeparated : Type 0
  AllSeparated =
      (a : ℕ)
      → a ≤ bound
      → (b : ℕ) → b ≤ bound
      → (c : ℕ) → c ≤ bound
      → (d : ℕ) → d ≤ bound
      → Separated ks a b c d

  search-Decides :
      Decides Good AllSeparated
        (up_to (λ a. up_to (λ b. up_to (λ c. up_to (pair_body ks a b c) bound) bound) bound) bound)
  search-Decides =
      up_to-Decides _ Good
        (λ a.
          (b : ℕ) → b ≤ bound → (c : ℕ) → c ≤ bound → (d : ℕ) → d ≤ bound → Separated ks a b c d)
        bound
        λ a ha.
          up_to-Decides _ Good
            (λ b. (c : ℕ) → c ≤ bound → (d : ℕ) → d ≤ bound → Separated ks a b c d) bound
            λ b hb.
              up_to-Decides _ Good (λ c. (d : ℕ) → d ≤ bound → Separated ks a b c d) bound
                λ c hc.
                  up_to-Decides (pair_body ks a b c) Good (Separated ks a b c) bound
                    λ d hd. pair_body-Decides a b c d ha hb hc hd

  verdict :
      (o : Option (Unit {0}))
      → Outcome Good AllSeparated o
      → (found o ≡ true) ↔ HasCollision ks bound
  unfolding found
  verdict none clear = (
    λ e. absurd (ground (arith, e)),
    λ h. absurd (h.8 (clear h.0 h.4 h.1 h.5 h.2 h.6 h.3 h.7 h.9)),
  )
  verdict (some hit) good = (λ e. good, λ h. refl)

  -- For a `u64` modulus above 1 and every bound, the search over pairs returns, and it returns true
  -- exactly when two different pairs up to the bound have one state.
  pub bounded_collision_search_len2-HasCollision_iff :
      (answer : Bool) × (bounded_collision_search_len2 ks bound ≡ some answer)
      × ((answer ≡ true) ↔ HasCollision ks bound)
  unfolding bounded_collision_search_len2
  bounded_collision_search_len2-HasCollision_iff =
      let r = search-Decides in (found r.0, rw r.1 refl, verdict r.0 r.2)
