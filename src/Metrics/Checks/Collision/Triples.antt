-- ===== src/Metrics/Checks/Collision/Triples.antt =====
-- The search over triples of ksentry-metrics/src/main.rs decides whether two triples have one state.
use k_sentry.Prelude.{
  ℕ, ◌%◌, ◌≤◌, ◌<◌, ◌≡◌, refl, sym, ap, ◌∙◌, arith, none, some, [], ◌∷◌, inl, inr, ◌==◌, ==_iff,
  ◌&&◌, Bool-cases, lt→ltb,
}
use mathlib.Core.Option.{some-injective}
use k_sentry.Metrics.Arith.Exact.{IsModulus}
use k_sentry.Metrics.Sentry.{KSentry, new, state_for_logs}
use k_sentry.Metrics.Sentry.Exact.{square_sum, state_for_logs-fits}
use k_sentry.Metrics.Checks.Search.{up_to, Decides, up_to-Decides}
use k_sentry.Metrics.Checks.Collision.{triple_body, triple_loop, exhaustive_len3_collision_search}

-- Two different triples below the bound with one state.
abbrev pub IsCollision : KSentry → ℕ → (ℕ × ℕ × ℕ) × (ℕ × ℕ × ℕ) × ℕ → Type 0
IsCollision ks bound ((a, b, c), (x, y, z), s) =
    (a ≤ bound)
    × (b ≤ bound)
    × (c ≤ bound)
    × (x ≤ bound)
    × (y ≤ bound)
    × (z ≤ bound)
    × (¬ ((a ≡ x) × (b ≡ y) × (c ≡ z)))
    × (state_for_logs ks (a ∷ b ∷ c ∷ []) ≡ some s)
    × (state_for_logs ks (x ∷ y ∷ z ∷ []) ≡ some s)

-- A triple shares its state with no other one.
abbrev pub Separated : KSentry → ℕ → ℕ → ℕ → ℕ → ℕ → ℕ → Type 0
Separated ks a b c x y z =
    state_for_logs ks (a ∷ b ∷ c ∷ []) ≡ state_for_logs ks (x ∷ y ∷ z ∷ [])
    → (a ≡ x) × (b ≡ y) × (c ≡ z)

module _ (ks : KSentry) (m : IsModulus ks.p) (bound : ℕ) where
  abbrev SeparatedFrom : ℕ → ℕ → ℕ → Type 0
  SeparatedFrom a b c =
      (x : ℕ) → x ≤ bound → (y : ℕ) → y ≤ bound → (z : ℕ) → z ≤ bound → Separated ks a b c x y z

  triple_body-Decides :
      (s1 a b c x y z : ℕ)
      → a ≤ bound
      → b ≤ bound
      → c ≤ bound
      → x ≤ bound
      → y ≤ bound
      → z ≤ bound
      → state_for_logs ks (a ∷ b ∷ c ∷ []) ≡ some s1
      → Decides (IsCollision ks bound) (Separated ks a b c x y z) (triple_body ks s1 a b c x y z)
  unfolding triple_body
  triple_body-Decides s1 a b c x y z ha hb hc hx hy hz e =
      let s2 = square_sum ks.q 0 (x ∷ y ∷ z ∷ []) % ks.p in
      let e2 : state_for_logs ks (x ∷ y ∷ z ∷ []) ≡ some s2 =
        state_for_logs-fits ks m (x ∷ y ∷ z ∷ []) (omega arith) in
      elim (Bool-cases ((a == x) && (b == y) && (c == z))) [
        | inl same ↦ (none, rw same refl, λ t. ground (arith, same))
        | inr other ↦ elim (Bool-cases (s1 == s2)) [
          | inl hit ↦ (
            some ((a, b, c), (x, y, z), s1),
            rw (other, e2, hit) refl,
            (
              ha,
              hb,
              hc,
              hx,
              hy,
              hz,
              λ t. ground (arith, other, t.0, t.1, t.2),
              e,
              e2 ∙ ap (λ (t : ℕ). some t) (sym ((==_iff s1 s2).0 hit)),
            ),
          )
          | inr miss ↦ (
            none,
            rw (other, e2, miss) refl,
            λ t. absurd (ground (arith, miss, some-injective s1 s2 (sym e ∙ t ∙ e2))),
          )
        ]
      ]

  triple_loop-Decides :
      (a b c : ℕ)
      → a ≤ bound
      → b ≤ bound
      → c ≤ bound
      → Decides (IsCollision ks bound) (SeparatedFrom a b c) (triple_loop ks bound a b c)
  unfolding triple_loop
  triple_loop-Decides a b c ha hb hc =
      let e = state_for_logs-fits ks m (a ∷ b ∷ c ∷ []) (omega arith) in
      let s1 = square_sum ks.q 0 (a ∷ b ∷ c ∷ []) % ks.p in
      let r =
        up_to-Decides (λ x. up_to (λ y. up_to (triple_body ks s1 a b c x y) bound) bound)
          (IsCollision ks bound)
          (λ x. (y : ℕ) → y ≤ bound → (z : ℕ) → z ≤ bound → Separated ks a b c x y z) bound
          λ x hx.
            up_to-Decides (λ y. up_to (triple_body ks s1 a b c x y) bound) (IsCollision ks bound)
              (λ y. (z : ℕ) → z ≤ bound → Separated ks a b c x y z) bound
              λ y hy.
                up_to-Decides (triple_body ks s1 a b c x y) (IsCollision ks bound)
                  (Separated ks a b c x y) bound
                  λ z hz. triple_body-Decides s1 a b c x y z ha hb hc hx hy hz e in
      (r.0, rw e r.1, r.2)

  triples-Decides :
      Decides
        (IsCollision ks bound)
        ((a : ℕ) → a ≤ bound → (b : ℕ) → b ≤ bound → (c : ℕ) → c ≤ bound → SeparatedFrom a b c)
        (up_to (λ a. up_to (λ b. up_to (triple_loop ks bound a b) bound) bound) bound)
  triples-Decides =
      up_to-Decides (λ a. up_to (λ b. up_to (triple_loop ks bound a b) bound) bound)
        (IsCollision ks bound)
        (λ a. (b : ℕ) → b ≤ bound → (c : ℕ) → c ≤ bound → SeparatedFrom a b c) bound
        λ a ha.
          up_to-Decides (λ b. up_to (triple_loop ks bound a b) bound) (IsCollision ks bound)
            (λ b. (c : ℕ) → c ≤ bound → SeparatedFrom a b c) bound
            λ b hb.
              up_to-Decides (triple_loop ks bound a b) (IsCollision ks bound) (SeparatedFrom a b)
                bound λ c hc. triple_loop-Decides a b c ha hb hc

-- For a base above 0, a `u64` modulus above 1 and every bound, the search over triples returns: with
-- two different triples up to the bound and their common state, or with nothing, and then no two
-- different triples up to the bound have one state.
pub exhaustive_len3_collision_search-Decides :
    (q p bound : ℕ)
    → 0 < q
    → IsModulus p
    → (ks : KSentry) × (new q p ≡ some ks)
      × Decides
          (IsCollision ks bound)
          ((a : ℕ)
            → a ≤ bound
            → (b : ℕ) → b ≤ bound
            → (c : ℕ) → c ≤ bound
            → (x : ℕ) → x ≤ bound
            → (y : ℕ) → y ≤ bound
            → (z : ℕ) → z ≤ bound
            → Separated ks a b c x y z)
          (exhaustive_len3_collision_search q p bound)
unfolding exhaustive_len3_collision_search new
exhaustive_len3_collision_search-Decides q p bound hq m =
    let ks : KSentry = record { state = 0; q = q; p = p } in
    let r = triples-Decides ks m bound in
    (
      ks,
      rw (lt→ltb 1 p m.above_one, lt→ltb 0 q hq) refl,
      (r.0, rw (lt→ltb 1 p m.above_one, lt→ltb 0 q hq) r.1, r.2),
    )
