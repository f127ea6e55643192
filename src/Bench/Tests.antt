-- ===== src/Bench/Tests.antt =====
-- The generated stream of timefence-core/src/bench.rs, and an instance of the benchmarks.
use k_sentry.Prelude.{◌≡◌, refl, arith, some, List, [], ◌∷◌, map, All}
use k_sentry.Field.{Fits}
use k_sentry.Bench.{BenchResult, stream_loop, generate_stream, benchmark_results}
use k_sentry.Bench.Exact.{IsResult, benchmark_results-IsResult}

-- The first two elements.
generate_stream_run : generate_stream 2 ≡ 1_315_423_911 ∷ 2_630_847_950 ∷ []
unfolding generate_stream stream_loop
generate_stream_run = refl

prime_Fits : Fits 1_000_000_007
prime_Fits = record { above_one = omega arith; within_u64 = omega arith }

benchmark_results-IsResult_run :
    (rs : List BenchResult) × (benchmark_results 7 1_000_000_007 ≡ some rs)
    × (map (λ r. r.events) rs ≡ 1_000 ∷ 10_000 ∷ 100_000 ∷ 1_000_000 ∷ [])
    × All (IsResult 7 1_000_000_007) rs
benchmark_results-IsResult_run = benchmark_results-IsResult prime_Fits 7 (omega arith)
