-- ===== src/Metrics/Checks/Collision.antt =====
-- ksentry-metrics/src/main.rs: the exhaustive searches for two streams with one state.
pub mod Pairs
pub mod Triples
use k_sentry.Prelude.{ℕ, Option, none, some, List, [], ◌∷◌, ◌==◌, ◌&&◌, if◌then◌else◌, ◌>>=◌}
use k_sentry.Metrics.Sentry.{KSentry, new, state_for_logs}
use k_sentry.Metrics.Checks.Search.{up_to}

-- The innermost body and the two inner loops of the search over pairs.
unfoldable pub pair_body : KSentry → ℕ → ℕ → ℕ → ℕ → ℕ → Option (Option ((ℕ × ℕ) × (ℕ × ℕ) × ℕ))
pair_body ks s1 a b c d = if (a == c) && (b == d) then some none else do
  s2 ← state_for_logs ks (c ∷ d ∷ [])
  some (if s1 == s2 then some ((a, b), (c, d), s1) else none)

unfoldable pub pair_loop : KSentry → ℕ → ℕ → ℕ → Option (Option ((ℕ × ℕ) × (ℕ × ℕ) × ℕ))
pair_loop ks bound a b = do
  s1 ← state_for_logs ks (a ∷ b ∷ [])
  up_to (λ c. up_to (pair_body ks s1 a b c) bound) bound

unfoldable pub exhaustive_len2_collision_search :
    ℕ → ℕ → ℕ → Option (Option ((ℕ × ℕ) × (ℕ × ℕ) × ℕ))
exhaustive_len2_collision_search q p bound = do
  ks ← new q p
  up_to (λ a. up_to (pair_loop ks bound a) bound) bound

-- The same of the search over triples.
unfoldable pub triple_body :
    KSentry → ℕ → ℕ → ℕ → ℕ → ℕ → ℕ → ℕ → Option (Option ((ℕ × ℕ × ℕ) × (ℕ × ℕ × ℕ) × ℕ))
triple_body ks s1 a b c x y z = if (a == x) && (b == y) && (c == z) then some none else do
  s2 ← state_for_logs ks (x ∷ y ∷ z ∷ [])
  some (if s1 == s2 then some ((a, b, c), (x, y, z), s1) else none)

unfoldable pub triple_loop :
    KSentry → ℕ → ℕ → ℕ → ℕ → Option (Option ((ℕ × ℕ × ℕ) × (ℕ × ℕ × ℕ) × ℕ))
triple_loop ks bound a b c = do
  s1 ← state_for_logs ks (a ∷ b ∷ c ∷ [])
  up_to (λ x. up_to (λ y. up_to (triple_body ks s1 a b c x y) bound) bound) bound

unfoldable pub exhaustive_len3_collision_search :
    ℕ → ℕ → ℕ → Option (Option ((ℕ × ℕ × ℕ) × (ℕ × ℕ × ℕ) × ℕ))
exhaustive_len3_collision_search q p bound = do
  ks ← new q p
  up_to (λ a. up_to (λ b. up_to (triple_loop ks bound a b) bound) bound) bound
