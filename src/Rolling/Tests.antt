-- ===== src/Rolling/Tests.antt =====
-- Runs of the rolling hash, and its theorem at the chunk of the repository's test.
use k_sentry.Prelude.{ℕ, ◌≡◌, refl, arith, some, List, [], ◌∷◌}
use k_sentry.Field.{mod_mul, mod_add}
use k_sentry.Rolling.{
  RollingHash, new, update, digest, position, ingest, rolling_hash, rolling_shifted_spec,
  rolling_rebase_digest,
}
use k_sentry.Rolling.Rebase.{rolling_rebase_digest-shifted}

abbrev chunk : List ℕ
chunk = 101 ∷ 202 ∷ 303 ∷ 404 ∷ []

abbrev prime : ℕ
prime = 1_000_000_007

rolling_position : (st : RollingHash) × (rolling_hash chunk 7 prime ≡ some st) × (position st ≡ 4)
unfolding rolling_hash new ingest update position mod_mul mod_add
rolling_position =
    (record { q = 7; p = 1_000_000_007; n = 4; acc = 154934; weight = 2401 }, refl, refl)

rolling_rebase_digest-shifted_example :
    (st : RollingHash) × (d : ℕ) × (rolling_hash chunk 7 prime ≡ some st)
    × (rolling_rebase_digest (digest st) 7 prime 10 ≡ some d)
    × (rolling_shifted_spec chunk 7 prime 10 ≡ some d)
rolling_rebase_digest-shifted_example =
    rolling_rebase_digest-shifted (record { above_one = omega arith; within_u64 = omega arith }) 7
      chunk 10 (omega arith) (omega arith) (omega arith)
