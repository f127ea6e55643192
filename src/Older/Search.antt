-- ===== src/Older/Search.antt =====
-- ksentry-metrics/src/bin/main1.rs: the bounded searches for two logs of one state. The nested loops
-- return from the function at the first hit.
pub mod Pairs
pub mod Triples
pub mod Tests
use k_sentry.Prelude.{
  ℕ, Option, none, some, List, [], ◌∷◌, Bool, true, false, ◌==◌, ◌&&◌, if◌then◌else◌, ◌>>=◌,
}
use k_sentry.Metrics.Checks.Search.{up_to}
use k_sentry.Older.{KSentry, state_for_logs}

-- `true` behind a `return`, and `false` behind the loops.
unfoldable pub found : Option (Unit {0}) → Bool
found none = false
found (some hit) = true

unfoldable pub pair_body : KSentry → ℕ → ℕ → ℕ → ℕ → Option (Option (Unit {0}))
pair_body ks a b c d = if (a == c) && (b == d) then some none else do
  s1 ← state_for_logs ks (a ∷ b ∷ [])
  s2 ← state_for_logs ks (c ∷ d ∷ [])
  some (if s1 == s2 then some tt else none)

unfoldable pub bounded_collision_search_len2 : KSentry → ℕ → Option Bool
bounded_collision_search_len2 ks bound = do
  hit ← up_to (λ a. up_to (λ b. up_to (λ c. up_to (pair_body ks a b c) bound) bound) bound) bound
  some (found hit)

unfoldable pub triple_body : KSentry → ℕ → ℕ → ℕ → ℕ → ℕ → ℕ → Option (Option (Unit {0}))
triple_body ks a b c d e f = if (a == d) && (b == e) && (c == f) then some none else do
  s1 ← state_for_logs ks (a ∷ b ∷ c ∷ [])
  s2 ← state_for_logs ks (d ∷ e ∷ f ∷ [])
  some (if s1 == s2 then some tt else none)

unfoldable pub bounded_collision_search_len3 : KSentry → ℕ → Option Bool
bounded_collision_search_len3 ks bound = do
  hit ←
      up_to
        (λ a.
          up_to
            (λ b.
              up_to
                (λ c. up_to (λ d. up_to (λ e. up_to (triple_body ks a b c d e) bound) bound) bound)
                bound)
            bound)
        bound
  some (found hit)
