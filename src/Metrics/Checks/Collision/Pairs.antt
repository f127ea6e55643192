-- ===== src/Metrics/Checks/Collision/Pairs.antt =====
-- The search over pairs of ksentry-metrics/src/main.rs decides whether two pairs have one state.
use k_sentry.Prelude.{
  ℕ, ◌%◌, ◌≤◌, ◌<◌, ◌≡◌, refl, sym, ap, ◌∙◌, arith, none, some, [], ◌∷◌, inl, inr, ◌==◌, ==_iff,
  ◌&&◌, Bool-cases, lt→ltb,
}
use mathlib.Core.Option.{some-injective}
use k_sentry.Metrics.Arith.Exact.{IsModulus}
use k_sentry.Metrics.Sentry.{KSentry, new, state_for_logs}
use k_sentry.Metrics.Sentry.Exact.{square_sum, state_for_logs-fits}
use k_sentry.Metrics.Checks.Search.{up_to, Decides, up_to-Decides}
use k_sentry.Metrics.Checks.Collision.{pair_body, pair_loop, exhaustive_len2_collision_search}

-- Two different pairs below the bound with one state.
abbrev pub IsCollision : KSentry → ℕ → (ℕ × ℕ) × (ℕ × ℕ) × ℕ → Type 0
IsCollision ks bound ((a, b), (c, d), s) =
    (a ≤ bound)
    × (b ≤ bound)
    × (c ≤ bound)
    × (d ≤ bound)
    × (¬ ((a ≡ c) × (b ≡ d)))
    × (state_for_logs ks (a ∷ b ∷ []) ≡ some s)
    × (state_for_logs ks (c ∷ d ∷ []) ≡ some s)

-- A pair shares its state with no other one.
abbrev pub Separated : KSentry → ℕ → ℕ → ℕ → ℕ → Type 0
Separated ks a b c d =
    state_for_logs ks (a ∷ b ∷ []) ≡ state_for_logs ks (c ∷ d ∷ []) → (a ≡ c) × (b ≡ d)

module _ (ks : KSentry) (m : IsModulus ks.p) (bound : ℕ) where
  pair_body-Decides :
      (s1 a b c d : ℕ)
      → a ≤ bound
      → b ≤ bound
      → c ≤ bound
      → d ≤ bound
      → state_for_logs ks (a ∷ b ∷ []) ≡ some s1
      → Decides (IsCollision ks bound) (Separated ks a b c d) (pair_body ks s1 a b c d)
  unfolding pair_body
  pair_body-Decides s1 a b c d ha hb hc hd e =
      let s2 = square_sum ks.q 0 (c ∷ d ∷ []) % ks.p in
      let e2 : state_for_logs ks (c ∷ d ∷ []) ≡ some s2 =
        state_for_logs-fits ks m (c ∷ d ∷ []) (omega arith) in
      elim (Bool-cases ((a == c) && (b == d))) [
        | inl same ↦ (none, rw same refl, λ t. ground (arith, same))
        | inr other ↦ elim (Bool-cases (s1 == s2)) [
          | inl hit ↦ (
            some ((a, b), (c, d), s1),
            rw (other, e2, hit) refl,
            (
              ha,
              hb,
              hc,
              hd,
              λ t. ground (arith, other, t.0, t.1),
              e,
              e2 ∙ ap (λ (t : ℕ). some t) (sym ((==_iff s1 s2).0 hit)),
            ),
          )
          | inr miss ↦ (
            none,
            rw (other, e2, miss) refl,
            λ t. absurd (ground (arith, miss, some-injective s1 s2 (sym e ∙ t ∙ e2))),
          )
        ]
      ]

  pair_loop-Decides :
      (a b : ℕ)
      → a ≤ bound
      → b ≤ bound
      → Decides
          (IsCollision ks bound)
          ((c : ℕ) → c ≤ bound → (d : ℕ) → d ≤ bound → Separated ks a b c d)
          (pair_loop ks bound a b)
  unfolding pair_loop
  pair_loop-Decides a b ha hb =
      let e = state_for_logs-fits ks m (a ∷ b ∷ []) (omega arith) in
      let s1 = square_sum ks.q 0 (a ∷ b ∷ []) % ks.p in
      let r =
        up_to-Decides (λ c. up_to (pair_body ks s1 a b c) bound) (IsCollision ks bound)
          (λ c. (d : ℕ) → d ≤ bound → Separated ks a b c d) bound
          λ c hc.
            up_to-Decides (pair_body ks s1 a b c) (IsCollision ks bound) (Separated ks a b c) bound
              λ d hd. pair_body-Decides s1 a b c d ha hb hc hd e in
      (r.0, rw e r.1, r.2)

-- For a base above 0, a `u64` modulus above 1 and every bound, the search over pairs returns: with
-- two different pairs up to the bound and their common state, or with nothing, and then no two
-- different pairs up to the bound have one state.
pub exhaustive_len2_collision_search-Decides :
    (q p bound : ℕ)
    → 0 < q
    → IsModulus p
    → (ks : KSentry) × (new q p ≡ some ks)
      × Decides
          (IsCollision ks bound)
          ((a : ℕ)
            → a ≤ bound
            → (b : ℕ) → b ≤ bound
            → (c : ℕ) → c ≤ bound
            → (d : ℕ) → d ≤ bound
            → Separated ks a b c d)
          (exhaustive_len2_collision_search q p bound)
unfolding exhaustive_len2_collision_search new
exhaustive_len2_collision_search-Decides q p bound hq m =
    let ks : KSentry = record { state = 0; q = q; p = p } in
    let r =
      up_to-Decides (λ a. up_to (pair_loop ks bound a) bound) (IsCollision ks bound)
        (λ a.
          (b : ℕ) → b ≤ bound → (c : ℕ) → c ≤ bound → (d : ℕ) → d ≤ bound → Separated ks a b c d)
        bound
        λ a ha.
          up_to-Decides (pair_loop ks bound a) (IsCollision ks bound)
            (λ b. (c : ℕ) → c ≤ bound → (d : ℕ) → d ≤ bound → Separated ks a b c d) bound
            λ b hb. pair_loop-Decides ks m bound a b ha hb in
    (
      ks,
      rw (lt→ltb 1 p m.above_one, lt→ltb 0 q hq) refl,
      (r.0, rw (lt→ltb 1 p m.above_one, lt→ltb 0 q hq) r.1, r.2),
    )
