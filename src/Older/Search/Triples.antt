-- ===== src/Older/Search/Triples.antt =====
-- The search over triples of ksentry-metrics/src/bin/main1.rs decides whether two triples have one state.
use mathlib.Core.Option.{some-injective}
use k_sentry.Prelude.{
  ℕ, ◌%◌, ◌≤◌, ◌≡◌, ◌↔◌, refl, sym, ap, ◌∙◌, arith, Option, none, some, [], ◌∷◌, inl, inr, Bool,
  true, ◌==◌, ==_iff, ◌&&◌, Bool-cases,
}
use k_sentry.KSentry.Exact.{tri_sum}
use k_sentry.Metrics.Arith.Exact.{IsModulus}
use k_sentry.Metrics.Checks.Search.{up_to, Outcome, Decides, up_to-Decides}
use k_sentry.Older.{KSentry, state_for_logs}
use k_sentry.Older.Exact.{state_for_logs-fits}
use k_sentry.Older.Search.{found, triple_body, bounded_collision_search_len3}

-- Two different triples up to the bound with one state.
abbrev pub HasCollision : KSentry → ℕ → Type 0
HasCollision ks bound =
    (a b c x y z : ℕ) × (a ≤ bound)
    × (b ≤ bound)
    × (c ≤ bound)
    × (x ≤ bound)
    × (y ≤ bound)
    × (z ≤ bound)
    × (¬ ((a ≡ x) × (b ≡ y) × (c ≡ z)))
    × (state_for_logs ks (a ∷ b ∷ c ∷ []) ≡ state_for_logs ks (x ∷ y ∷ z ∷ []))

-- A triple shares its state with no other one.
abbrev pub Separated : KSentry → ℕ → ℕ → ℕ → ℕ → ℕ → ℕ → Type 0
Separated ks a b c x y z =
    state_for_logs ks (a ∷ b ∷ c ∷ []) ≡ state_for_logs ks (x ∷ y ∷ z ∷ [])
    → (a ≡ x) × (b ≡ y) × (c ≡ z)

module _ (ks : KSentry) (m : IsModulus ks.p) (bound : ℕ) where
  abbrev Good : Unit {0} → Type 0
  Good hit = HasCollision ks bound

  triple_body-Decides :
      (a b c x y z : ℕ)
      → a ≤ bound
      → b ≤ bound
      → c ≤ bound
      → x ≤ bound
      → y ≤ bound
      → z ≤ bound
      → Decides Good (Separated ks a b c x y z) (triple_body ks a b c x y z)
  unfolding triple_body
  triple_body-Decides a b c x y z ha hb hc hx hy hz =
      let s1 = tri_sum ks.q 0 (a ∷ b ∷ c ∷ []) % ks.p in
      let s2 = tri_sum ks.q 0 (x ∷ y ∷ z ∷ []) % ks.p in
      let e1 : state_for_logs ks (a ∷ b ∷ c ∷ []) ≡ some s1 =
        state_for_logs-fits ks m (a ∷ b ∷ c ∷ []) (omega arith) in
      let e2 : state_for_logs ks (x ∷ y ∷ z ∷ []) ≡ some s2 =
        state_for_logs-fits ks m (x ∷ y ∷ z ∷ []) (omega arith) in
      elim (Bool-cases ((a == x) && (b == y) && (c == z))) [
        | inl same ↦ (none, rw same refl, λ t. ground (arith, same))
        | inr other ↦ elim (Bool-cases (s1 == s2)) [
          | inl hit ↦ (
            some tt,
            rw (other, e1, e2, hit) refl,
            (
              a,
              b,
              c,
              x,
              y,
              z,
              ha,
              hb,
              hc,
              hx,
              hy,
              hz,
              λ t. ground (arith, other, t.0, t.1, t.2),
              e1 ∙ ap (λ (t : ℕ). some t) ((==_iff s1 s2).0 hit) ∙ sym e2,
            ),
          )
          | inr miss ↦ (
            none,
            rw (other, e1, e2, miss) refl,
            λ t. absurd (ground (arith, miss, some-injective s1 s2 (sym e1 ∙ t ∙ e2))),
          )
        ]
      ]

  -- The claim of the loops that are left behind the indices given.
  abbrev From5 : ℕ → ℕ → ℕ → ℕ → ℕ → Type 0
  From5 a b c x y = (z : ℕ) → z ≤ bound → Separated ks a b c x y z

  abbrev From4 : ℕ → ℕ → ℕ → ℕ → Type 0
  From4 a b c x = (y : ℕ) → y ≤ bound → From5 a b c x y

  abbrev From3 : ℕ → ℕ → ℕ → Type 0
  From3 a b c = (x : ℕ) → x ≤ bound → From4 a b c x

  abbrev From2 : ℕ → ℕ → Type 0
  From2 a b = (c : ℕ) → c ≤ bound → From3 a b c

  abbrev From1 : ℕ → Type 0
  From1 a = (b : ℕ) → b ≤ bound → From2 a b

  -- The three inner loops.
  inner-Decides :
      (a b c : ℕ)
      → a ≤ bound
      → b ≤ bound
      → c ≤ bound
      → Decides Good
          (From3 a b c)
          (up_to (λ x. up_to (λ y. up_to (triple_body ks a b c x y) bound) bound) bound)
  inner-Decides a b c ha hb hc = up_to-Decides _ Good (From4 a b c) bound λ x hx.
      up_to-Decides _ Good (From5 a b c x) bound λ y hy.
        up_to-Decides (triple_body ks a b c x y) Good (Separated ks a b c x y) bound
          λ z hz. triple_body-Decides a b c x y z ha hb hc hx hy hz

  search-Decides : Decides Good ((a : ℕ) → a ≤ bound → From1 a) (
      up_to
        (λ a.
          up_to
            (λ b.
              up_to
                (λ c. up_to (λ x. up_to (λ y. up_to (triple_body ks a b c x y) bound) bound) bound)
                bound)
            bound)
        bound)
  search-Decides = up_to-Decides _ Good From1 bound λ a ha.
      up_to-Decides _ Good (From2 a) bound
        λ b hb. up_to-Decides _ Good (From3 a b) bound λ c hc. inner-Decides a b c ha hb hc

  verdict :
      (o : Option (Unit {0}))
      → Outcome Good ((a : ℕ) → a ≤ bound → From1 a) o
      → (found o ≡ true) ↔ HasCollision ks bound
  unfolding found
  verdict none clear = (
    λ e. absurd (ground (arith, e)),
    λ h. absurd (h.12 (clear h.0 h.6 h.1 h.7 h.2 h.8 h.3 h.9 h.4 h.10 h.5 h.11 h.13)),
  )
  verdict (some hit) good = (λ e. good, λ h. refl)

  -- For a `u64` modulus above 1 and every bound, the search over triples returns, and it returns
  -- true exactly when two different triples up to the bound have one state.
  pub bounded_collision_search_len3-HasCollision_iff :
      (answer : Bool) × (bounded_collision_search_len3 ks bound ≡ some answer)
      × ((answer ≡ true) ↔ HasCollision ks bound)
  unfolding bounded_collision_search_len3
  bounded_collision_search_len3-HasCollision_iff =
      let r = search-Decides in (found r.0, rw r.1 refl, verdict r.0 r.2)
