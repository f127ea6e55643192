-- ===== src/Older/Search/Tests.antt =====
-- Runs of the bounded searches of ksentry-metrics/src/bin/main1.rs, and instances.
use k_sentry.Prelude.{◌≡◌, ◌↔◌, refl, arith, some, Bool, true, false}
use k_sentry.Power.{power_loop}
use k_sentry.Metrics.Arith.{add_mod_u64, mul_mod_u64, pow_mod_u64}
use k_sentry.Metrics.Arith.Exact.{IsModulus}
use k_sentry.Metrics.Checks.Search.{up_to, loop}
use k_sentry.Older.{
  KSentry, checked_mul, weight_for_index, absorb, ingest_loop, ingest_telemetry, state_for_logs,
}
use k_sentry.Older.Search.{
  found, pair_body, bounded_collision_search_len2, bounded_collision_search_len3,
}
use k_sentry.Older.Search.Pairs
use k_sentry.Older.Search.Pairs.{bounded_collision_search_len2-HasCollision_iff}
use k_sentry.Older.Search.Triples
use k_sentry.Older.Search.Triples.{bounded_collision_search_len3-HasCollision_iff}

abbrev sentry : KSentry
sentry = record { state = 0; q = 7; p = 101 }

sentry-IsModulus : IsModulus 101
sentry-IsModulus = record { above_one = omega arith; is_u64 = omega arith }

-- Modulo 101 the pairs up to 2 have different states: 7 times a difference of at most 2 is not one.
len2_run : bounded_collision_search_len2 sentry 2 ≡ some false
unfolding bounded_collision_search_len2 found up_to loop pair_body state_for_logs ingest_telemetry
    ingest_loop weight_for_index checked_mul absorb add_mod_u64 mul_mod_u64 pow_mod_u64 power_loop
len2_run = refl

bounded_collision_search_len2_HasCollision_iff_run :
    (answer : Bool) × (bounded_collision_search_len2 sentry 5 ≡ some answer)
    × ((answer ≡ true) ↔ Pairs.HasCollision sentry 5)
bounded_collision_search_len2_HasCollision_iff_run =
    bounded_collision_search_len2-HasCollision_iff sentry sentry-IsModulus 5

bounded_collision_search_len3_HasCollision_iff_run :
    (answer : Bool) × (bounded_collision_search_len3 sentry 3 ≡ some answer)
    × ((answer ≡ true) ↔ Triples.HasCollision sentry 3)
bounded_collision_search_len3_HasCollision_iff_run =
    bounded_collision_search_len3-HasCollision_iff sentry sentry-IsModulus 3
